-- ===== src/Shared/Ids.antt =====
-- Ids of the shape `<kind>:<key>`, as the search boxes and the sheets of the modes use them. A text is
-- the list of its characters' codes here.
pub mod RoundTrip
use Prim.Native.Char.{code}
use Prim.Native.String.{String}
use fintraffic.Base.{
  ℕ, zero, suc, Bool, true, false, ◌&&◌, List, [], ◌∷◌, ◌++◌, Option, none, some, ◌==◌,
  if◌then◌else◌,
}

abbrev pub Text : Type 0
Text = List ℕ

-- The characters of a string, by their code points.
abbrev pub chars : String → Text
chars String.[] = []
chars (String.◌∷◌ c s) = code c ∷ chars s

-- `a === b`.
unfoldable pub text_eq : Text → Text → Bool
text_eq [] [] = true
text_eq [] (b ∷ y) = false
text_eq (a ∷ x) [] = false
text_eq (a ∷ x) (b ∷ y) = (a == b) && text_eq x y

abbrev pub colon : ℕ
colon = b':'

-- The template `${kind}:${key}`.
abbrev pub make_id : Text → Text → Text
make_id kind key = kind ++ (colon ∷ key)

abbrev pub next {ℓ} : {A : Type ℓ} → A → Option (List A × List A) → Option (List A × List A)
next c none = none
next c (some (before, after)) = some (c ∷ before, after)

-- What stands before and after the first colon; `none` if `indexOf` gives -1.
unfoldable pub split_id : Text → Option (Text × Text)
split_id [] = none
split_id (c ∷ id) = let rest = next c (split_id id) in if c == colon then some ([], id) else rest

abbrev pub all_but_last : Text → Text
all_but_last [] = []
all_but_last (c ∷ []) = []
all_but_last (c ∷ (d ∷ id)) = c ∷ all_but_last (d ∷ id)

-- `id.slice(0, sep)` and `id.slice(sep + 1)`: with no colon, -1 counts from the end, and 0 is the
-- start.
abbrev pub parts_of : Text → Option (Text × Text) → Text × Text
parts_of id none = (all_but_last id, id)
parts_of id (some parts) = parts

unfoldable pub parse_id : Text → Text × Text
unfolding split_id
parse_id id = parts_of id (split_id id)

-- ===== src/Shared/Ids/RoundTrip.antt =====
-- Ids are read back, and what is found by its key has that key.
use fintraffic.Base.{
  ◌≡◌, refl, ap, ◌∙◌, Bool, true, false, List, [], ◌∷◌, some, ◌==◌, if◌then◌else◌, arith, find, any,
  Bool-cases, inl, inr,
}
use fintraffic.Shared.Ids.{Text, text_eq, colon, make_id, next, split_id, parts_of, parse_id}

pub text_eq_refl : (x : Text) → text_eq x x ≡ true
unfolding text_eq
text_eq_refl [] = refl
text_eq_refl (a ∷ x) = ground (arith, text_eq_refl x)

pub eq_of_text_eq : (x y : Text) → text_eq x y ≡ true → x ≡ y
unfolding text_eq
eq_of_text_eq [] [] e = refl
eq_of_text_eq [] (b ∷ y) e = absurd (ground (arith, e))
eq_of_text_eq (a ∷ x) [] e = absurd (ground (arith, e))
eq_of_text_eq (a ∷ x) (b ∷ y) e = ground (arith, e, eq_of_text_eq x y)

abbrev pub has_colon : Text → Bool
has_colon kind = any (λ c. c == colon) kind

split-make :
    (kind key : Text) → has_colon kind ≡ false → split_id (make_id kind key) ≡ some (kind, key)
unfolding split_id
split-make [] key e = refl
split-make (c ∷ kind) key e =
    let other : (c == colon) ≡ false = ground (arith, e) in
    ap (λ b. if b then some ([], make_id kind key) else next c (split_id (make_id kind key))) other
    ∙ ap (next c) (split-make kind key (ground (arith, e)))

-- The parts of an id are read back, also if the key has colons.
pub parse-make :
    (kind key : Text) → has_colon kind ≡ false → parse_id (make_id kind key) ≡ (kind, key)
unfolding parse_id
parse-make kind key e = ap (parts_of (make_id kind key)) (split-make kind key e)

module _ {ℓ} {A : Type ℓ} (key_of : A → Text) where
  -- What is looked up by the key of one of the items is there and has that key.
  pub find-key :
      (xs : List A) (key : Text)
      → any (λ x. text_eq (key_of x) key) xs ≡ true
      → (a : A) × (find (λ x. text_eq (key_of x) key) xs ≡ some a) × (key_of a ≡ key)
  find-key [] key e = absurd (ground (arith, e))
  find-key (x ∷ xs) key e = elim (Bool-cases (text_eq (key_of x) key)) [
    | inl at ↦ (x, rw at refl, eq_of_text_eq (key_of x) key at)
    | inr on ↦ let rest = find-key xs key (ground (arith, e, on)) in (rest.0, rw on rest.1, rest.2)
  ]

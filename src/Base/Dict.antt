-- ===== src/Base/Dict.antt =====
-- A JavaScript object used as a dictionary (`Record<string, T>`), as an association list. The keys
-- of the program's dictionaries are MMSI numbers in decimal: they are kept as numbers here.
use fintraffic.Base.{
  ℕ, ◌≡◌, refl, Bool, true, List, [], ◌∷◌, Option, none, some, arith, ◌==◌, if◌then◌else◌,
}

abbrev pub Dict {ℓ} : Type ℓ → Type ℓ
Dict V = List (ℕ × V)

module _ {ℓ} {V : Type ℓ} where
  -- `object[key]`, `undefined` on a missing key.
  unfoldable pub lookup : ℕ → Dict V → Option V
  lookup key [] = none
  lookup key (entry ∷ entries) = if entry.0 == key then some entry.1 else lookup key entries

  -- `delete object[key]`.
  unfoldable pub remove : ℕ → Dict V → Dict V
  remove key [] = []
  remove key (entry ∷ entries) =
      let kept = remove key entries in if entry.0 == key then kept else entry ∷ kept

  -- `object[key] = value`: in place of the old value, or a new key at the end.
  unfoldable pub insert : ℕ → V → Dict V → Dict V
  insert key value [] = (key, value) ∷ []
  insert key value (entry ∷ entries) =
      let later = insert key value entries in
      if entry.0 == key then (key, value) ∷ entries else entry ∷ later

  -- `{ ...m, ...new }`.
  unfoldable pub spread : Dict V → Dict V → Dict V
  unfolding insert
  spread m [] = m
  spread m ((k, v) ∷ new) = spread (insert k v m) new

  -- The entries that pass a test of key and value.
  unfoldable pub keep_entries : (ℕ → V → Bool) → Dict V → Dict V
  keep_entries p [] = []
  keep_entries p ((k, v) ∷ m) = let rest = keep_entries p m in if p k v then (k, v) ∷ rest else rest

  -- No key stands twice.
  unfoldable pub IsDistinct : Dict V → Type ℓ
  unfolding lookup
  IsDistinct [] = Unit
  IsDistinct ((k, v) ∷ m) = (lookup k m ≡ none) × IsDistinct m

  pub lookup-insert :
      (key other : ℕ) (value : V) (entries : Dict V)
      → lookup other (insert key value entries)
        ≡ (if key == other then some value else lookup other entries)
  unfolding lookup insert
  lookup-insert key other value [] = refl
  lookup-insert key other value (entry ∷ entries) =
      ground (arith, lookup-insert key other value entries)

  pub lookup-remove :
      (k j : ℕ) (m : Dict V) → lookup j (remove k m) ≡ (if k == j then none else lookup j m)
  unfolding lookup remove
  lookup-remove k j [] = ground arith
  lookup-remove k j ((i, w) ∷ m) = ground (arith, lookup-remove k j m)

  pub lookup-keep_entries :
      (p : ℕ → V → Bool) (k : ℕ) (v : V) (m : Dict V)
      → lookup k m ≡ some v
      → p k v ≡ true
      → lookup k (keep_entries p m) ≡ some v
  unfolding lookup keep_entries
  lookup-keep_entries p k v [] e h = ground arith
  lookup-keep_entries p k v ((j, w) ∷ m) e h = ground (arith, lookup-keep_entries p k v m)

  abbrev pub or_else : Option V → Option V → Option V
  or_else none w = w
  or_else (some v) w = some v

  -- In a spread the new object wins.
  pub lookup-spread :
      (j : ℕ) (m new : Dict V)
      → IsDistinct new
      → lookup j (spread m new) ≡ or_else (lookup j new) (lookup j m)
  unfolding spread lookup IsDistinct
  lookup-spread j m [] d = refl
  lookup-spread j m ((k, v) ∷ new) d =
      ground (arith, lookup-spread j (insert k v m) new d.1, lookup-insert k j v m, d.0)

  pub insert-IsDistinct : (k : ℕ) (v : V) (m : Dict V) → IsDistinct m → IsDistinct (insert k v m)
  unfolding IsDistinct insert lookup
  insert-IsDistinct k v [] d = (refl, tt)
  insert-IsDistinct k v ((j, w) ∷ m) d =
      ground (arith, insert-IsDistinct k v m d.1, lookup-insert k j v m)

  pub spread-IsDistinct : (m new : Dict V) → IsDistinct m → IsDistinct (spread m new)
  unfolding spread
  spread-IsDistinct m [] d = d
  spread-IsDistinct m ((k, v) ∷ new) d =
      spread-IsDistinct (insert k v m) new (insert-IsDistinct k v m d)

  pub remove-IsDistinct : (k : ℕ) (m : Dict V) → IsDistinct m → IsDistinct (remove k m)
  unfolding IsDistinct remove lookup
  remove-IsDistinct k [] d = tt
  remove-IsDistinct k ((j, w) ∷ m) d =
      ground (arith, remove-IsDistinct k m d.1, lookup-remove k j m)

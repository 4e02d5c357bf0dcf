-- ===== src/Shared/Sort.antt =====
-- `Array.prototype.sort` with `(a, b) => key(a) - key(b)`: a stable sort by ascending keys.
pub mod Order
use fintraffic.Base.{ℕ, Bool, true, false, List, [], ◌∷◌, if◌then◌else◌}

module _ {A : Type 0} (leq : A → A → Bool) where
  -- Before the first element that is not below or equal to the new one, which was further left.
  unfoldable pub place : A → List A → List A
  place x [] = x ∷ []
  place x (y ∷ ys) = let rest = place x ys in if leq x y then x ∷ y ∷ ys else y ∷ rest

  unfoldable pub sort : List A → List A
  unfolding place
  sort [] = []
  sort (x ∷ xs) = place x (sort xs)

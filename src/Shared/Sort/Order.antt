-- ===== src/Shared/Sort/Order.antt =====
-- The sort is sorted and keeps the elements.
use fintraffic.Base.{
  ℕ, suc, ◌≡◌, refl, Bool, true, false, List, [], ◌∷◌, arith, if_cases, All, All-mono, count, min,
  take, zero,
}
use fintraffic.Shared.Sort.{place, sort}

module _ {A : Type 0} (leq : A → A → Bool) where
  -- Every element is below or equal to all those after it.
  unfoldable pub IsSorted : List A → Type 0
  IsSorted [] = Unit
  IsSorted (x ∷ xs) = All (λ y. leq x y ≡ true) xs × IsSorted xs

  pub All-place : (P : A → Type 0) (x : A) (xs : List A) → P x → All P xs → All P (place leq x xs)
  unfolding place
  All-place P x [] p h = (p, tt)
  All-place P x (y ∷ ys) p h =
      if_cases (All P) (leq x y) (λ e. (p, h)) (λ e. (h.0, All-place P x ys p h.1))

  pub All-sort : (P : A → Type 0) (xs : List A) → All P xs → All P (sort leq xs)
  unfolding sort
  All-sort P [] h = tt
  All-sort P (x ∷ xs) h = All-place P x (sort leq xs) h.0 (All-sort P xs h.1)

  module _ (total : (x y : A) → leq x y ≡ false → leq y x ≡ true)
      (trans : (x y z : A) → leq x y ≡ true → leq y z ≡ true → leq x z ≡ true) where
    place-IsSorted : (x : A) (xs : List A) → IsSorted xs → IsSorted (place leq x xs)
    unfolding IsSorted place
    place-IsSorted x [] h = (tt, tt)
    place-IsSorted x (y ∷ ys) h =
        if_cases IsSorted (leq x y) (λ e. ((e, All-mono (λ z f. trans x y z e f) ys h.0), h))
          (λ e. (All-place (λ z. leq y z ≡ true) x ys (total x y e) h.0, place-IsSorted x ys h.1))

    pub sort-IsSorted : (xs : List A) → IsSorted (sort leq xs)
    unfolding IsSorted sort
    sort-IsSorted [] = tt
    sort-IsSorted (x ∷ xs) = place-IsSorted x (sort leq xs) (sort-IsSorted xs)

  pub count-place :
      (p : A → Bool) (x : A) (xs : List A) → count p (place leq x xs) ≡ count p (x ∷ xs)
  unfolding place
  count-place p x [] = refl
  count-place p x (y ∷ ys) =
      if_cases (λ zs. count p zs ≡ count p (x ∷ y ∷ ys)) (leq x y) (λ e. refl)
        (λ e. ground (arith, count-place p x ys))

  pub count-sort : (p : A → Bool) (xs : List A) → count p (sort leq xs) ≡ count p xs
  unfolding sort
  count-sort p [] = refl
  count-sort p (x ∷ xs) = ground (arith, count-place p x (sort leq xs), count-sort p xs)

  count-none : (p : A → Bool) (xs : List A) → All (λ y. p y ≡ false) xs → count p xs ≡ 0
  count-none p [] h = refl
  count-none p (x ∷ xs) h = ground (arith, count-none p xs h.1, h.0)

  -- Of a test that holds below wherever it holds, the first elements of a sorted list have as many as
  -- they can.
  pub count-take :
      (p : A → Bool) (k : ℕ) (xs : List A)
      → ((x y : A) → leq x y ≡ true → p x ≡ false → p y ≡ false)
      → IsSorted xs
      → count p (take k xs) ≡ min k (count p xs)
  unfolding IsSorted
  count-take p zero xs down h = omega arith
  count-take p (suc k) [] down h = omega arith
  count-take p (suc k) (x ∷ xs) down h = on (p x) refl (count-take p k xs down h.1)
    where
      on :
          (b : Bool)
          → p x ≡ b
          → count p (take k xs) ≡ min k (count p xs)
          → count p (take (suc k) (x ∷ xs)) ≡ min (suc k) (count p (x ∷ xs))
      on true e rest = ground (arith, rest, e)
      on false e rest =
          ground (arith, rest, e, count-none p xs (All-mono (λ y f. down x y f e) xs h.0))

  All-take : (P : A → Type 0) (k : ℕ) (xs : List A) → All P xs → All P (take k xs)
  All-take P zero xs h = tt
  All-take P (suc k) [] h = tt
  All-take P (suc k) (x ∷ xs) h = (h.0, All-take P k xs h.1)

  pub take-IsSorted : (k : ℕ) (xs : List A) → IsSorted xs → IsSorted (take k xs)
  unfolding IsSorted
  take-IsSorted zero xs h = tt
  take-IsSorted (suc k) [] h = tt
  take-IsSorted (suc k) (x ∷ xs) h =
      (All-take (λ y. leq x y ≡ true) k xs h.0, take-IsSorted k xs h.1)

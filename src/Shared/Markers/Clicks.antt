-- ===== src/Shared/Markers/Clicks.antt =====
-- A click on a marker finds what it stands for.
use fintraffic.Base.{
  ℕ, zero, suc, ◌≡◌, refl, ap, ◌∙◌, sym, Bool, true, false, ◌||◌, List, [], ◌∷◌, none, some, map,
  keep, any, all, is_some, if◌then◌else◌, arith, get_elem?, Option-cases, ◌⊎◌, inl, inr,
}
use fintraffic.Shared.Markers.{Markers, Event, lands, swaps, fresh, step, run, get, click}

some_if : {A : Type 0} (b : Bool) (x y : A) → (if b then some x else none) ≡ some y → y ≡ x
some_if true x y e = cc
some_if false x y e = cc

at-cons :
    {F : Type 0} (i : ℕ) (g : F) (gs : List F) (f : F)
    → get_elem? (g ∷ gs) i ≡ some f
    → (g ≡ f) ⊎ ((j : ℕ) × (get_elem? gs j ≡ some f))
at-cons zero g gs f e = inl (cc)
at-cons (suc j) g gs f e = inr (j, e)

module _ {X K : Type 0} (same : K → K → Bool) (key : X → K) where
  get-same : (k : K) (xs : List X) (y : X) → get same key k xs ≡ some y → same (key y) k ≡ true
  unfolding get
  get-same k [] y e = absurd (ground (arith, e))
  get-same k (x ∷ xs) y e = ground (arith, e, get-same k xs y)

  get-all :
      (p : X → Bool) (k : K) (xs : List X) (y : X)
      → all p xs ≡ true
      → get same key k xs ≡ some y
      → p y ≡ true
  unfolding get
  get-all p k [] y a e = absurd (ground (arith, e))
  get-all p k (x ∷ xs) y a e = ground (arith, a, e, get-all p k xs y)

  get-some :
      (k : K) (xs : List X)
      → any (λ x. same (key x) k) xs ≡ true
      → is_some (get same key k xs) ≡ true
  unfolding get
  get-some k [] e = absurd (ground (arith, e))
  get-some k (x ∷ xs) e = ground (arith, e, get-some k xs)

module _ {X F K : Type 0} (same : K → K → Bool) (key : X → K) (key_of : F → K) where
  -- Every feature carries the key of an item it may have been made of.
  unfoldable pub IsCarried : (List X → List F) → Type 0
  IsCarried build =
      (xs : List X) (i : ℕ) (f : F)
      → get_elem? (build xs) i ≡ some f
      → any (λ x. same (key x) (key_of f)) xs ≡ true

  pub map-IsCarried :
      (feature : X → F)
      → ((x : X) → same (key x) (key_of (feature x)) ≡ true)
      → IsCarried (λ xs. map feature xs)
  unfolding IsCarried
  map-IsCarried feature carried [] i f e = absurd (ground (arith, e))
  map-IsCarried feature carried (x ∷ xs) i f e = elim (at-cons i (feature x) (map feature xs) f e) [
    | inl here ↦
        let own = ap (λ g. same (key x) (key_of g)) (sym here) ∙ carried x in ground (arith, own)
    | inr (j, there) ↦
        let later = map-IsCarried feature carried xs j f there in ground (arith, later)
  ]

  any-keep : (p t : X → Bool) (xs : List X) → any t (keep p xs) ≡ true → any t xs ≡ true
  any-keep p t [] e = e
  any-keep p t (x ∷ xs) e = ground (arith, e, any-keep p t xs)

  pub keep-IsCarried :
      (p : X → Bool) (build : List X → List F)
      → IsCarried build
      → IsCarried (λ xs. build (keep p xs))
  unfolding IsCarried
  keep-IsCarried p build c xs i f e =
      any-keep p (λ x. same (key x) (key_of f)) xs (c (keep p xs) i f e)

  module _ (admit : List X → List X) (build : List X → List F) (p : X → Bool) where
    -- What the source holds was made of the register, whose items all satisfy the test.
    unfoldable pub IsCurrent : Markers X F → Type 0
    IsCurrent m =
        ((fs : List F) → m.drawn ≡ some fs → fs ≡ build m.register) × (all p m.register ≡ true)

    step-IsCurrent :
        (e : Event X) (m : Markers X F)
        → ((xs : List X) → all p (admit xs) ≡ true)
        → IsCurrent m
        → IsCurrent (step admit build e m)
    unfolding step IsCurrent
    step-IsCurrent (lands ready xs) m admits c =
        (λ fs e. some_if (is_some m.drawn || ready) (build (admit xs)) fs e, admits xs)
    step-IsCurrent swaps m admits (c, a) = (λ fs e. absurd (ground (arith, e)), a)

    run-IsCurrent :
        (es : List (Event X)) (m : Markers X F)
        → ((xs : List X) → all p (admit xs) ≡ true)
        → IsCurrent m
        → IsCurrent (run admit build es m)
    unfolding run
    run-IsCurrent [] m admits c = c
    run-IsCurrent (e ∷ es) m admits c =
        run-IsCurrent es (step admit build e m) admits (step-IsCurrent e m admits c)

    -- Let every item that a fetch keeps pass the test, and each feature carry the key of an item it was
    -- built from. Then, whatever answers and swaps of the style came, a click on any feature that is
    -- on the map finds an item of its key in the register, and that item passes the test.
    pub click-finds :
        (es : List (Event X)) (m : Markers X F) (fs : List F) (i : ℕ) (f : F)
        → ((xs : List X) → all p (admit xs) ≡ true)
        → IsCarried build
        → IsCurrent m
        → (run admit build es m).drawn ≡ some fs
        → get_elem? fs i ≡ some f
        → (x : X) × (click same key key_of f (run admit build es m) ≡ some x)
          × (same (key x) (key_of f) ≡ true)
          × (p x ≡ true)
    unfolding click IsCurrent IsCarried
    click-finds es m fs i f admits carried c e at =
        let end = run admit build es m in
        let current = run-IsCurrent es m admits c in
        let made = current.0 fs e in
        let there =
          get-some same key (key_of f) end.register
            (carried end.register i f (ap (λ gs. get_elem? gs i) (sym made) ∙ at)) in
        elim (Option-cases (get same key (key_of f) end.register)) [
          | inl missing ↦ absurd (ground (arith, there, missing))
          | inr (x, found) ↦ (
            x,
            found,
            get-same same key (key_of f) end.register x found,
            get-all same key p (key_of f) end.register x current.1 found,
          )
        ]

pub all-keep : {X : Type 0} (p : X → Bool) (xs : List X) → all p (keep p xs) ≡ true
all-keep p [] = refl
all-keep p (x ∷ xs) = ground (arith, all-keep p xs)

pub all-true : {X : Type 0} (xs : List X) → all (λ x. true) xs ≡ true
all-true [] = refl
all-true (x ∷ xs) = all-true xs

pub fresh-IsCurrent :
    {X F K : Type 0} (same : K → K → Bool) (key : X → K) (key_of : F → K) (admit : List X → List X)
    (build : List X → List F) (p : X → Bool)
    → IsCurrent same key key_of admit build p fresh
unfolding IsCurrent
fresh-IsCurrent same key key_of admit build p = (λ fs e. absurd (ground (arith, e)), refl)

-- The feeds that keep an answer whole and make a feature of each item.
pub plain-selects :
    {X F K : Type 0} (same : K → K → Bool) (key : X → K) (key_of : F → K) (feature : X → F)
    (events : List (Event X)) (fs : List F) (i : ℕ) (f : F)
    → ((x : X) → same (key x) (key_of (feature x)) ≡ true)
    → (run (λ xs. xs) (λ xs. map feature xs) events fresh).drawn ≡ some fs
    → get_elem? fs i ≡ some f
    → (x : X) × (click same key key_of f (run (λ xs. xs) (λ xs. map feature xs) events fresh)
        ≡ some x)
      × (same (key x) (key_of f) ≡ true)
plain-selects same key key_of feature events fs i f own e at =
    let found =
      click-finds same key key_of (λ xs. xs) (λ xs. map feature xs) (λ x. true) events fresh fs i f
        all-true (map-IsCarried same key key_of feature own)
        (fresh-IsCurrent same key key_of (λ xs. xs) (λ xs. map feature xs) (λ x. true)) e at in
    (found.0, found.1, found.2)

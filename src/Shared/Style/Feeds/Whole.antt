-- ===== src/Shared/Style/Feeds/Whole.antt =====
-- What the feeds of a map share: of each, the style holds all items or none.
use fintraffic.Base.{
  ◌≡◌, refl, ap, ◌∙◌, Bool, true, false, not, ◌||◌, List, [], ◌∷◌, String, all, any, arith,
  Bool-cases, if◌then◌else◌, inl, inr, if_cases,
}
use fintraffic.Shared.Style.{layer_named, Item, same, MapApi, IsMap, set_layers_visible}
use fintraffic.Shared.Style.Install.{same_refl, holds, distinct, same-congr, Adds}
use fintraffic.Shared.Style.Feeds.{Feed}

-- The items of the second list are all among the first, or none of them is.
abbrev pub within_or_outside : List Item → List Item → Bool
within_or_outside is ks = all (holds is) ks || all (λ k. not (holds is k)) ks

-- The tables of the feeds: none adds an item twice, sources are tested and are among those added, and
-- what one adds is what another adds or has nothing of it.
pub record IsTable {K L Theme : Type 0} (feed : Theme → K → Feed L) : Type 0 where
  pub guards_added : (θ : Theme) (k : K) → all (holds (feed θ k).items) (feed θ k).guards ≡ true
  pub guarded : (θ : Theme) (k : K) → any (λ i. true) (feed θ k).guards ≡ true
  pub no_doubles : (θ : Theme) (k : K) → distinct (feed θ k).items ≡ true
  pub apart :
      (θ θ' : Theme) (k k' : K) → within_or_outside (feed θ k).items (feed θ' k').items ≡ true

holds-congr : (is : List Item) (i j : Item) → same i j ≡ true → holds is j ≡ holds is i
holds-congr [] i j e = refl
holds-congr (k ∷ is) i j e = ground (arith, same-congr i j k e, holds-congr is i j e)

all-holds :
    (p : Item → Bool) (ks : List Item) (j : Item)
    → ((i : Item) → same i j ≡ true → p j ≡ p i)
    → all p ks ≡ true
    → holds ks j ≡ true
    → p j ≡ true
all-holds p [] j h e f = absurd (ground (arith, f))
all-holds p (k ∷ ks) j h e f = elim (Bool-cases (same k j)) [
  | inl at ↦ ground (arith, h k at, e)
  | inr on ↦ all-holds p ks j h (ground (arith, e)) (ground (arith, f, on))
]

pub outside-holds :
    (is ks : List Item) (j : Item)
    → all (λ k. not (holds is k)) ks ≡ true
    → holds ks j ≡ true
    → holds is j ≡ false
outside-holds is ks j e f =
    ground
      (arith, all-holds (λ k. not (holds is k)) ks j (λ i g. ap not (holds-congr is i j g)) e f)

module _ {S : Type 0} (api : MapApi S) where
  -- All of the items are there, or none is.
  abbrev pub IsWhole : List Item → S → Type 0
  IsWhole is s = (there : Bool) × ((j : Item) → holds is j ≡ true → api.present s j ≡ there)

  pub all-present :
      (is : List Item) (s : S)
      → ((j : Item) → holds is j ≡ true → api.present s j ≡ true)
      → all (api.present s) is ≡ true
  all-present [] s h = refl
  all-present (i ∷ is) s h =
      ground (
        arith,
        h i (ground (arith, same_refl i)),
        all-present is s (λ j e. h j (ground (arith, e))),
      )

  -- One guard at least is tested, and none is there.
  pub guards-false :
      (is gs : List Item) (s : S)
      → any (λ i. true) gs ≡ true
      → all (holds is) gs ≡ true
      → ((j : Item) → holds is j ≡ true → api.present s j ≡ false)
      → all (api.present s) gs ≡ false
  guards-false is [] s g e h = absurd (ground (arith, g))
  guards-false is (j ∷ gs) s g e h = ground (arith, h j (ground (arith, e)))

  pub guards-true :
      (is gs : List Item) (s : S)
      → all (holds is) gs ≡ true
      → ((j : Item) → holds is j ≡ true → api.present s j ≡ true)
      → all (api.present s) gs ≡ true
  guards-true is [] s e h = refl
  guards-true is (g ∷ gs) s e h =
      ground (arith, h g (ground (arith, e)), guards-true is gs s (ground (arith, e)) h)

module _ {S : Type 0} (api : MapApi S) (laws : IsMap api) where
  -- The same items, the same address, and loaded or not as before.
  abbrev pub Keeps : S → S → Type 0
  Keeps s s' =
      ((j : Item) → api.present s' j ≡ api.present s j)
      × (api.loaded s' ≡ api.loaded s)
      × (api.wanted s' ≡ api.wanted s)

  pub Keeps-trans : (s s' s'' : S) → Keeps s s' → Keeps s' s'' → Keeps s s''
  Keeps-trans s s' s'' (p, l, w) (p', l', w') = (λ j. p' j ∙ p j, l' ∙ l, w' ∙ w)

  pub Keeps-set_layers_visible :
      (ids : List String) (on : Bool) (s : S) → Keeps s (set_layers_visible api ids on s)
  unfolding set_layers_visible
  Keeps-set_layers_visible [] on s = (λ j. refl, refl, refl)
  Keeps-set_layers_visible (id ∷ ids) on s =
      let s' = if api.present s (layer_named id) then api.set_visible id on s else s in
      Keeps-trans s s' (set_layers_visible api ids on s')
        (if_cases (Keeps s) (api.present s (layer_named id)) (λ e. laws.set_visible_keeps id on s e)
          (λ e. (λ j. refl, refl, refl)))
        (Keeps-set_layers_visible ids on s')

  pub IsWhole-Adds :
      (is ks : List Item) (s s' : S)
      → within_or_outside is ks ≡ true
      → Adds api laws is s s'
      → IsWhole api ks s
      → IsWhole api ks s'
  IsWhole-Adds is ks s s' e a w = elim (Bool-cases (all (holds is) ks)) [
    | inl inside ↦ (
      true,
      λ j h. a j ∙ ground (arith, all-holds (holds is) ks j (λ i. holds-congr is i j) inside h),
    )
    | inr other ↦ (
      w.0,
      λ j h.
          a j
          ∙ ground (
            arith,
            w.1 j h,
            all-holds (λ k. not (holds is k)) ks j (λ i f. ap not (holds-congr is i j f))
                (ground (arith, e, other)) h,
          ),
    )
  ]

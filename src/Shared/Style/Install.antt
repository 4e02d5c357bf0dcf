-- ===== src/Shared/Style/Install.antt =====
-- What an install of items leaves in a style.
use fintraffic.Base.{
  ◌≡◌, refl, sym, ap, ◌∙◌, Bool, true, false, not, ◌&&◌, ◌||◌, List, [], ◌∷◌, ◌++◌, some,
  if◌then◌else◌, any, String, any-append, arith,
}
use text.Mathlib.TextPositions.{eq_refl}
use text.Mathlib.TextEquality.{eq_iff}
use fintraffic.Shared.Style.{
  Item, name, same, MapApi, IsMap, add_all, install_group, install, and_then,
}

abbrev pub flatten {ℓ} : {A : Type ℓ} → List (List A) → List A
flatten [] = []
flatten (g ∷ gs) = g ++ flatten gs

-- The list holds an item of the kind and name.
abbrev pub holds : List Item → Item → Bool
holds is j = any (λ i. same i j) is

-- No two items are of one kind and name.
abbrev pub distinct : List Item → Bool
distinct [] = true
distinct (i ∷ is) = not (any (same i) is) && distinct is

pub same_refl : (i : Item) → same i i ≡ true
same_refl i = ground (arith, eq_refl (name i))

-- Items of one kind and name are the same as the same items.
pub same-congr : (i j k : Item) → same i j ≡ true → same k j ≡ same k i
same-congr i j k e = ground (arith, eq_iff (name i) (name j), e)

distinct-suffix : (is rest : List Item) → distinct (is ++ rest) ≡ true → distinct rest ≡ true
distinct-suffix [] rest d = d
distinct-suffix (i ∷ is) rest d = distinct-suffix is rest (ground (arith, d))

or_swap : (a b c : Bool) → (b || (a || c)) ≡ ((a || b) || c)
or_swap a b c = ground arith

module _ {S : Type 0} (api : MapApi S) where
  abbrev pub AllAbsent : List Item → S → Type 0
  AllAbsent [] s = Unit
  AllAbsent (i ∷ is) s = (api.present s i ≡ false) × AllAbsent is s

  pub AllAbsent-holds :
      (is : List Item) (s : S)
      → ((j : Item) → holds is j ≡ true → api.present s j ≡ false)
      → AllAbsent is s
  AllAbsent-holds [] s h = tt
  AllAbsent-holds (i ∷ is) s h =
      (h i (ground (arith, same_refl i)), AllAbsent-holds is s (λ j e. h j (ground (arith, e))))

  AllAbsent-add :
      (i : Item) (is : List Item) (s s' : S)
      → any (same i) is ≡ false
      → ((j : Item) → api.present s' j ≡ (same i j || api.present s j))
      → AllAbsent is s
      → AllAbsent is s'
  AllAbsent-add i [] s s' d h a = tt
  AllAbsent-add i (k ∷ is) s s' d h a =
      (ground (arith, h k, a.0, d), AllAbsent-add i is s s' (ground (arith, d)) h a.1)

module _ {S : Type 0} (api : MapApi S) (laws : IsMap api) where
  abbrev pub Adds : List Item → S → S → Type 0
  Adds is s s' = (j : Item) → api.present s' j ≡ (holds is j || api.present s j)

  -- Loaded, and with the same address.
  abbrev pub StaysLoaded : S → S → Type 0
  StaysLoaded s s' = (api.loaded s' ≡ true) × (api.wanted s' ≡ api.wanted s)

  pub add_all-Adds :
      (is rest : List Item) (s : S)
      → distinct (is ++ rest) ≡ true
      → AllAbsent api (is ++ rest) s
      → api.loaded s ≡ true
      → (s' : S) × (add_all api is s ≡ some s')
        × AllAbsent api rest s'
        × Adds is s s'
        × StaysLoaded s s'
  unfolding add_all
  add_all-Adds [] rest s d a l = (s, refl, a, (λ j. refl), (l, refl))
  add_all-Adds (i ∷ is) rest s d a l =
      let added = laws.add_new i s l a.0 in
      let later =
        add_all-Adds is rest added.0 (ground (arith, d))
          (AllAbsent-add api i (is ++ rest) s added.0 (ground (arith, d)) added.2 a.1) added.3 in
      (
        later.0,
        ap (λ o. and_then o (add_all api is)) added.1 ∙ later.1,
        later.2,
        λ j. ground (arith, later.3 j, added.2 j),
        (later.4.0, later.4.1 ∙ added.4),
      )

  -- Where nothing of it is there, an install adds each item once, and throws nothing.
  pub install-Adds :
      (gs : List (List Item)) (s : S)
      → distinct (flatten gs) ≡ true
      → AllAbsent api (flatten gs) s
      → api.loaded s ≡ true
      → (s' : S) × (install api gs s ≡ some s') × Adds (flatten gs) s s'
  unfolding install install_group
  install-Adds [] s d a l = (s, refl, λ j. refl)
  install-Adds ([] ∷ gs) s d a l = install-Adds gs s d a l
  install-Adds ((i ∷ is) ∷ gs) s d a l =
      let group = add_all-Adds (i ∷ is) (flatten gs) s d a l in
      let later =
        install-Adds gs group.0 (distinct-suffix (i ∷ is) (flatten gs) d) group.2 group.4.0 in
      (
        later.0,
        ap (λ o. and_then o (install api gs))
              (ap (λ b. if b then some s else add_all api (i ∷ is) s) a.0 ∙ group.1)
            ∙ later.1,
        λ j.
            later.2 j
            ∙ ap (λ b. holds (flatten gs) j || b) (group.3 j)
            ∙ or_swap (holds (i ∷ is) j) (holds (flatten gs) j) (api.present s j)
            ∙ ap (λ b. b || api.present s j)
                (sym (any-append (λ k. same k j) (i ∷ is) (flatten gs))),
      )

  -- Where the first item of each group is there, an install changes nothing.
  pub install-again :
      (gs : List (List Item)) (s : S)
      → ((j : Item) → holds (flatten gs) j ≡ true → api.present s j ≡ true)
      → install api gs s ≡ some s
  unfolding install install_group
  install-again [] s h = refl
  install-again ([] ∷ gs) s h = install-again gs s h
  install-again ((i ∷ is) ∷ gs) s h =
      ap (λ b. and_then (if b then some s else add_all api (i ∷ is) s) (install api gs))
        (h i (ground (arith, same_refl i)))
      ∙ install-again gs s
          (λ j e. h j (any-append (λ k. same k j) (i ∷ is) (flatten gs) ∙ ground (arith, e)))

  -- The style of a basemap has none of the items.
  abbrev pub IsClearOf : List Item → String → Type 0
  IsClearOf is url = (j : Item) → holds is j ≡ true → api.basemap url j ≡ false

  -- The style at an address once it has landed after `setStyle`.
  abbrev pub swapped : String → S → S
  swapped url s = api.landed (api.set_style url s)

  pub present-swapped :
      (url : String) (s : S) (j : Item) → api.present (swapped url s) j ≡ api.basemap url j
  present-swapped url s j =
      laws.landed_fresh (api.set_style url s) j (laws.set_style_unloads url s)
      ∙ ap (λ u. api.basemap u j) (laws.set_style_wants url s)

  -- In a style that has landed, and that has none of the items of its own, an install throws nothing
  -- and leaves what is the style's own and the items.
  pub install-swapped :
      (gs : List (List Item)) (url : String) (s : S)
      → distinct (flatten gs) ≡ true
      → IsClearOf (flatten gs) url
      → (s' : S) × (install api gs (swapped url s) ≡ some s')
        × ((j : Item) → api.present s' j ≡ (holds (flatten gs) j || api.basemap url j))
  install-swapped gs url s d clear =
      let done =
        install-Adds gs (swapped url s) d
          (AllAbsent-holds api (flatten gs) (swapped url s)
            (λ j e. present-swapped url s j ∙ clear j e))
          (laws.landed_loads (api.set_style url s)) in
      (
        done.0,
        done.1,
        λ j. done.2 j ∙ ap (λ b. holds (flatten gs) j || b) (present-swapped url s j),
      )

-- ===== src/Shared/Style/Switched.antt =====
-- Which layers are visible after switches.
use fintraffic.Base.{
  ◌≡◌, refl, ap, ◌∙◌, Bool, true, false, ◌&&◌, List, [], ◌∷◌, String, if◌then◌else◌, any, all,
  arith, str_eq,
}
use fintraffic.Shared.Style.{Item, layer_named, MapApi, IsMap, set_layers_visible, switch_all}
use fintraffic.Shared.Style.Install.{holds}
use fintraffic.Shared.Style.Feeds.Whole.{Keeps-set_layers_visible}

-- The switch of a layer that comes last, or what it was before.
abbrev pub last_switch : List (List String × Bool) → String → Bool → Bool
last_switch [] id was = was
last_switch ((ids, on) ∷ switches) id was =
    last_switch switches id (if any (λ j. str_eq j id) ids then on else was)

and_left : (a b : Bool) → (a && b) ≡ true → a ≡ true
and_left true b e = refl
and_left false b e = e

and_right : (a b : Bool) → (a && b) ≡ true → b ≡ true
and_right true b e = e
and_right false b e = absurd (ground (arith, e))

module _ {S : Type 0} (api : MapApi S) (laws : IsMap api) where
  -- All of the layers are there.
  abbrev pub AllPresent : List String → S → Type 0
  AllPresent [] s = Unit
  AllPresent (id ∷ ids) s = (api.present s (layer_named id) ≡ true) × AllPresent ids s

  abbrev pub AllSwitchesPresent : List (List String × Bool) → S → Type 0
  AllSwitchesPresent [] s = Unit
  AllSwitchesPresent ((ids, on) ∷ switches) s = AllPresent ids s × AllSwitchesPresent switches s

  AllPresent-same :
      (ids : List String) (s s' : S)
      → ((i : Item) → api.present s' i ≡ api.present s i)
      → AllPresent ids s
      → AllPresent ids s'
  AllPresent-same [] s s' e h = tt
  AllPresent-same (id ∷ ids) s s' e h = (e (layer_named id) ∙ h.0, AllPresent-same ids s s' e h.1)

  AllSwitchesPresent-same :
      (switches : List (List String × Bool)) (s s' : S)
      → ((i : Item) → api.present s' i ≡ api.present s i)
      → AllSwitchesPresent switches s
      → AllSwitchesPresent switches s'
  AllSwitchesPresent-same [] s s' e h = tt
  AllSwitchesPresent-same ((ids, on) ∷ switches) s s' e h =
      (AllPresent-same ids s s' e h.0, AllSwitchesPresent-same switches s s' e h.1)

  visible-set_layers_visible :
      (ids : List String) (on : Bool) (s : S) (j : String)
      → AllPresent ids s
      → api.visible (set_layers_visible api ids on s) j
        ≡ (if any (λ id. str_eq id j) ids then on else api.visible s j)
  unfolding set_layers_visible
  visible-set_layers_visible [] on s j h = refl
  visible-set_layers_visible (id ∷ ids) on s j h =
      ap
        (λ (b : Bool).
          api.visible (set_layers_visible api ids on (if b then api.set_visible id on s else s)) j)
        h.0
      ∙ visible-set_layers_visible ids on (api.set_visible id on s) j (
          AllPresent-same ids s (api.set_visible id on s) ((laws.set_visible_keeps id on s h.0).0)
            h.1)
      ∙ ground (arith, laws.visible-set_visible id j on s h.0)

  pub visible-switch_all :
      (switches : List (List String × Bool)) (s : S) (j : String)
      → AllSwitchesPresent switches s
      → api.visible (switch_all api switches s) j ≡ last_switch switches j (api.visible s j)
  unfolding switch_all
  visible-switch_all [] s j h = refl
  visible-switch_all ((ids, on) ∷ switches) s j h =
      visible-switch_all switches (set_layers_visible api ids on s) j
        (AllSwitchesPresent-same switches s _ ((Keeps-set_layers_visible api laws ids on s).0) h.1)
      ∙ ap (λ was. last_switch switches j was) (visible-set_layers_visible ids on s j h.0)

  AllPresent-holds :
      (is : List Item) (s : S) (ids : List String)
      → ((i : Item) → holds is i ≡ true → api.present s i ≡ true)
      → all (λ id. holds is (layer_named id)) ids ≡ true
      → AllPresent ids s
  AllPresent-holds is s [] h e = tt
  AllPresent-holds is s (id ∷ ids) h e = (
    h (layer_named id) (and_left (holds is (layer_named id)) _ e),
    AllPresent-holds is s ids h (and_right (holds is (layer_named id)) _ e),
  )

  pub AllSwitchesPresent-holds :
      (is : List Item) (s : S) (switches : List (List String × Bool))
      → ((i : Item) → holds is i ≡ true → api.present s i ≡ true)
      → all (λ w. all (λ id. holds is (layer_named id)) w.0) switches ≡ true
      → AllSwitchesPresent switches s
  AllSwitchesPresent-holds is s [] h e = tt
  AllSwitchesPresent-holds is s ((ids, on) ∷ switches) h e = (
    AllPresent-holds is s ids h (and_left _ _ e),
    AllSwitchesPresent-holds is s switches h (and_right _ _ e),
  )

  pub present-switch_all :
      (switches : List (List String × Bool)) (s : S) (i : Item)
      → api.present (switch_all api switches s) i ≡ api.present s i
  unfolding switch_all
  present-switch_all [] s i = refl
  present-switch_all ((ids, on) ∷ switches) s i =
      present-switch_all switches _ i ∙ (Keeps-set_layers_visible api laws ids on s).0 i

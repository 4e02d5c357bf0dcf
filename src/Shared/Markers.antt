-- ===== src/Shared/Markers.antt =====
-- The markers of a feed on the maps of Tie, Raide and Ilma, and what a click on one finds: the fetch of
-- each feed keeps its answer by key for the handlers and puts a feature for each item into the source.
pub mod Clicks
use fintraffic.Base.{
  Bool, true, false, ◌||◌, List, [], ◌∷◌, Option, none, some, is_some, if◌then◌else◌,
}

-- The register of the last answer, and the features of the source; `none` while the style has no
-- such source.
pub record Markers (X F : Type 0) : Type 0 where
  pub register : List X
  pub drawn : Option (List F)

-- An answer, with whether the style is ready then; a swap of the style.
pub data Event (X : Type 0) : Type 0 where
  lands : Bool → List X → Event X
  swaps : Event X

-- Before the first answer: no source, and an empty register.
abbrev pub fresh : {X F : Type 0} → Markers X F
fresh = record { register = []; drawn = none }

-- `admit` is what the fetch keeps of an answer, and `build` makes the features.
module _ {X F : Type 0} (admit : List X → List X) (build : List X → List F) where
  unfoldable pub step : Event X → Markers X F → Markers X F
  step (lands ready xs) m = record {
    register = admit xs;
    drawn = if is_some m.drawn || ready then some (build (admit xs)) else none;
  }
  step swaps m = record m { drawn = none }

  unfoldable pub run : List (Event X) → Markers X F → Markers X F
  unfolding step
  run [] m = m
  run (e ∷ es) m = run es (step e m)

module _ {X K : Type 0} (same : K → K → Bool) (key : X → K) where
  -- `byKey.current.get(key)`, where the map was made of the answer: of two entries of one key the later
  -- one counts.
  unfoldable pub get : K → List X → Option X
  get k [] = none
  get k (x ∷ xs) = elim (get k xs) [
    | none ↦ if same (key x) k then some x else none
    | some y ↦ some y
  ]

  -- What a click on a feature selects, by the key among its properties.
  unfoldable pub click : {F : Type 0} → (F → K) → F → Markers X F → Option X
  unfolding get
  click key_of f m = get (key_of f) m.register

-- ===== src/Tie/Maintenance.antt =====
-- Road maintenance vehicles: lib/maintenance.ts.
pub mod Tasks
mod Tests
use text.Mathlib.Text.{◌==◌}
use fintraffic.Base.{ℕ, Bool, true, false, ◌||◌, List, [], ◌∷◌, Option, String, if◌then◌else◌, any}
use fintraffic.Tie.Traffic.{Theme, dark, light}

pub record MaintenanceVehicle (A : Type 0) : Type 0 where
  pub id : ℕ
  pub longitude : A
  pub latitude : A
  pub time : String
  pub tasks : List String
  pub direction : Option A
  pub domain : Option String
  pub source : Option String

pub data MaintenanceCategory : Type 0 where
  plough grit other : MaintenanceCategory

abbrev pub plough_tasks : List String
plough_tasks =
    "PLOUGHING_AND_SLUSH_REMOVAL" ∷ "PLOUGHING_OF_SLUSH_DITCH" ∷ "LOWERING_OF_SNOWBANKS"
    ∷ "TRANSFER_OF_SNOW" ∷ "REMOVAL_OF_BULGE_ICE" ∷ []

abbrev pub grit_tasks : List String
grit_tasks = "SALTING" ∷ "LINE_SANDING" ∷ "SPOT_SANDING" ∷ []

-- `Set.has`.
unfoldable pub has : List String → String → Bool
has tasks task = any (λ t. t == task) tasks

unfoldable pub maintenance_category : List String → MaintenanceCategory
unfolding has
maintenance_category tasks =
    if any (λ t. has plough_tasks t) tasks
    then plough
    else if any (λ t. has grit_tasks t) tasks
    then grit
    else other

abbrev pub maintenance_category_label : MaintenanceCategory → String
maintenance_category_label plough = "Snow ploughing"
maintenance_category_label grit = "Salting / sanding"
maintenance_category_label other = "Other maintenance"

abbrev pub maintenance_color_dark : MaintenanceCategory → String
maintenance_color_dark plough = "#4f8ff7"
maintenance_color_dark grit = "#e8a33d"
maintenance_color_dark other = "#9aa5b1"

abbrev pub maintenance_color_light : MaintenanceCategory → String
maintenance_color_light plough = "#1f5fd1"
maintenance_color_light grit = "#b46d0c"
maintenance_color_light other = "#5b6b7a"

unfoldable pub maintenance_colors : Theme → MaintenanceCategory → String
maintenance_colors light = maintenance_color_light
maintenance_colors dark = maintenance_color_dark

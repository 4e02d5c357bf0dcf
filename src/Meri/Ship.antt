-- ===== src/Meri/Ship.antt =====
-- Ship types and categories: lib/shipTypes.ts. AIS codes are natural numbers; a missing code is 0.
pub mod Bands
mod Tests
use fintraffic.Base.{
  ℕ, Bool, true, false, ◌&&◌, ◌||◌, List, [], ◌∷◌, Option, none, some, leb, ◌==◌, String,
  if◌then◌else◌,
}
use fintraffic.Base.Dict.{Dict, lookup}
use fintraffic.Base.Number.{Number, decimal}

pub data ShipCategory : Type 0 where
  passenger cargo tanker highspeed special sailing military other : ShipCategory

abbrev pub category_color : ShipCategory → String
category_color passenger = "#4da3ff"
category_color cargo = "#37c977"
category_color tanker = "#ff5c5c"
category_color highspeed = "#e05ce0"
category_color special = "#fdcb6e"
category_color sailing = "#a78bfa"
category_color military = "#93a37a"
category_color other = "#94a3b8"

abbrev pub category_label : ShipCategory → String
category_label passenger = "Passenger"
category_label cargo = "Cargo"
category_label tanker = "Tanker"
category_label highspeed = "High-speed"
category_label special = "Tug / Special"
category_label sailing = "Sailing / Pleasure"
category_label military = "Military"
category_label other = "Other"

abbrev pub all_categories : List ShipCategory
all_categories = passenger ∷ cargo ∷ tanker ∷ highspeed ∷ special ∷ sailing ∷ military ∷ other ∷ []

-- `t >= low && t <= high`.
abbrev pub within : ℕ → ℕ → ℕ → Bool
within low high t = leb low t && leb t high

abbrev pub given : Option ℕ → ℕ
given none = 0
given (some t) = t

abbrev pub category_of : ℕ → ShipCategory
category_of t =
    if within 60 69 t
    then passenger
    else if within 70 79 t
    then cargo
    else if within 80 89 t
    then tanker
    else if within 40 49 t
    then highspeed
    else if t == 35
    then military
    else if (t == 36) || (t == 37)
    then sailing
    else if within 31 34 t || within 50 58 t
    then special
    else other

unfoldable pub categorize : Option ℕ → ShipCategory
categorize ship_type = category_of (given ship_type)

abbrev pub ship_type_table : Dict String
ship_type_table =
    (30, "Fishing")
    ∷ (31, "Towing")
    ∷ (32, "Towing (long/wide)")
    ∷ (33, "Dredging / underwater ops")
    ∷ (34, "Diving ops")
    ∷ (35, "Military ops")
    ∷ (36, "Sailing vessel")
    ∷ (37, "Pleasure craft")
    ∷ (50, "Pilot vessel")
    ∷ (51, "Search and rescue")
    ∷ (52, "Tug")
    ∷ (53, "Port tender")
    ∷ (54, "Anti-pollution")
    ∷ (55, "Law enforcement")
    ∷ (58, "Medical transport")
    ∷ []

abbrev pub band_text : ℕ → String
band_text t =
    if within 40 49 t
    then "High-speed craft"
    else if within 60 69 t
    then "Passenger ship"
    else if within 70 79 t
    then "Cargo ship"
    else if within 80 89 t
    then "Tanker"
    else if within 90 99 t
    then "Other ship type"
    else "Unknown type"

abbrev pub text_at : Option String → ℕ → String
text_at (some text) t = text
text_at none t = band_text t

unfoldable pub ship_type_text : Option ℕ → String
unfolding lookup
ship_type_text ship_type = text_at (lookup (given ship_type) ship_type_table) (given ship_type)

abbrev pub nav_stat_table : Dict String
nav_stat_table =
    (0, "Under way (engine)")
    ∷ (1, "At anchor")
    ∷ (2, "Not under command")
    ∷ (3, "Restricted manoeuvrability")
    ∷ (4, "Constrained by draught")
    ∷ (5, "Moored")
    ∷ (6, "Aground")
    ∷ (7, "Engaged in fishing")
    ∷ (8, "Under way (sailing)")
    ∷ (11, "Towing astern")
    ∷ (12, "Pushing ahead")
    ∷ (14, "AIS-SART active")
    ∷ (15, "Undefined")
    ∷ []

unfoldable pub is_stationary : {A : Type 0} → Number A → A → ℕ → Bool
is_stationary n sog nav_stat =
    n.lt sog (decimal n 2 10) || ((nav_stat == 1) || ((nav_stat == 5) || (nav_stat == 6)))

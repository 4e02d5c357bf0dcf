-- ===== src/Raide/Trains.antt =====
-- Trains, their groups and their delays: lib/trains.ts.
pub mod Delays
mod Tests
use fintraffic.Base.{ℕ, Bool, true, false, not, List, Option, String, if◌then◌else◌}
use fintraffic.Base.Number.{Number}
use fintraffic.Tie.Traffic.{Theme, dark, light}

pub record NextStop : Type 0 where
  pub code : String
  pub name : String
  pub scheduled_time : String
  pub estimate_time : Option String
  pub track : Option String

pub record Train (A : Type 0) : Type 0 where
  pub train_number : A
  pub departure_date : String
  pub train_type : String
  pub category : String
  pub commuter_line : String
  pub operator : String
  pub cancelled : Bool
  pub latitude : A
  pub longitude : A
  pub speed : A
  pub timestamp : String
  pub delay_min : A
  pub has_delay : Bool
  pub origin : String
  pub dest : String
  pub depart_time : String
  pub arrive_time : String
  pub next_stop : Option NextStop
  pub stops : Option (List NextStop)

pub record BoardRow (A : Type 0) : Type 0 where
  pub train_number : A
  pub train_type : String
  pub category : String
  pub commuter_line : String
  pub terminus : String
  pub scheduled_time : String
  pub live_time : Option String
  pub delay_min : A
  pub track : Option String
  pub cancelled : Bool

pub record Board (A : Type 0) : Type 0 where
  pub station : String
  pub departures : List (BoardRow A)
  pub arrivals : List (BoardRow A)

pub data TrainGroup : Type 0 where
  long_distance commuter cargo other : TrainGroup

abbrev pub group_color_dark : TrainGroup → String
group_color_dark long_distance = "#2ecc71"
group_color_dark commuter = "#b48bf2"
group_color_dark cargo = "#f39c12"
group_color_dark other = "#8f9aa6"

abbrev pub group_color_light : TrainGroup → String
group_color_light long_distance = "#0e8a48"
group_color_light commuter = "#7c50c8"
group_color_light cargo = "#c87f0a"
group_color_light other = "#67737f"

unfoldable pub group_colors : Theme → TrainGroup → String
group_colors light = group_color_light
group_colors dark = group_color_dark

-- `STATION_COLORS`, and `TRACK_COLORS` of lib/theme.ts.
abbrev pub station_color : Theme → String
station_color dark = "#5ab6e8"
station_color light = "#0369a1"

abbrev pub track_color : Theme → String
track_color dark = "#8b98ab"
track_color light = "#526073"

abbrev pub category_label : TrainGroup → String
category_label long_distance = "Long-distance"
category_label commuter = "Commuter"
category_label cargo = "Cargo"
category_label other = "Other (locos, work)"

pub data DelaySeverity : Type 0 where
  none ok warn bad : DelaySeverity

module _ {A : Type 0} (n : Number A) where
  open n use {of_ℕ, le}

  -- The CSS class of a delay.
  unfoldable pub delay_class : A → String
  delay_class delay_min =
      if le (of_ℕ 10) delay_min
      then "delay-bad"
      else if le (of_ℕ 3) delay_min
      then "delay-warn"
      else "delay-ok"

  unfoldable pub delay_severity : A → Bool → DelaySeverity
  delay_severity delay_min has_delay =
      if not has_delay
      then none
      else if le (of_ℕ 10) delay_min
      then bad
      else if le (of_ℕ 3) delay_min
      then warn
      else ok

-- The ring of a delayed train; the others have none.
abbrev pub delay_ring_color : DelaySeverity → Option String
delay_ring_color warn = Option.some "#f2c94c"
delay_ring_color bad = Option.some "#e63946"
delay_ring_color _ = Option.none

-- ===== src/Ilma/Flight.antt =====
-- Aircraft in flight: components/Map.tsx of Ilma, where an aircraft is between two polls, and the
-- selected one with its trail.
pub mod Projected
pub mod Trail
mod Tests
use fintraffic.Base.{
  ℕ, Bool, true, false, ◌||◌, List, [], ◌∷◌, ◌++◌, Option, none, some, String, if◌then◌else◌, map,
  str_eq,
}
use fintraffic.Base.Number.{Number, maximum, minimum}
use fintraffic.Shared.Geo.{Trig, dead_reckon}
use fintraffic.Ilma.Aircraft.{Aircraft}

pub record TrailPoint (A : Type 0) : Type 0 where
  pub latitude : A
  pub longitude : A
  pub altitude_ft : Option A
  pub timestamp : A

-- `[lng, lat]`.
abbrev pub Position : Type 0 → Type 0
Position A = A × A

-- One piece of the trail, with the altitude it was flown at.
pub record Segment (A : Type 0) : Type 0 where
  pub start : Position A
  pub finish : Position A
  pub alt : A

pub record Coord (A : Type 0) : Type 0 where
  pub place : Position A
  pub alt : A

abbrev pub or_value {ℓ} : {A : Type ℓ} → Option A → A → A
or_value none a = a
or_value (some b) a = b

module _ {A : Type 0} (n : Number A) where
  open n use {of_ℕ, add, sub, div, lt}

  -- `MAX_PROJECT_S`.
  abbrev pub max_project_s : A
  max_project_s = of_ℕ 30

  -- The seconds since the fix, not below zero nor above the limit.
  abbrev pub project_seconds : Aircraft A → A → A
  project_seconds a now =
      minimum n (maximum n (div (sub now a.timestamp) (of_ℕ 1000)) (of_ℕ 0)) max_project_s

  abbrev pub coord_of : TrailPoint A → Coord A
  coord_of p = record { place = (p.longitude, p.latitude); alt = or_value p.altitude_ft (of_ℕ 0) }

  -- `coords.at(-1)?.alt ?? 0`.
  abbrev pub last_alt : List (Coord A) → A
  last_alt [] = of_ℕ 0
  last_alt (c ∷ []) = c.alt
  last_alt (c ∷ (d ∷ coords)) = last_alt (d ∷ coords)

  -- The recorded points, closed by the live position if there is one.
  abbrev pub closed : List (Coord A) → Option (Position A × Option A) → List (Coord A)
  closed coords none = coords
  closed coords (some (place, altitude)) =
      coords ++ (record { place = place; alt = or_value altitude (last_alt coords) } ∷ [])

  -- A piece from each of the points to the next.
  unfoldable pub pieces : Coord A → List (Coord A) → List (Segment A)
  pieces c [] = []
  pieces c (d ∷ coords) =
      record { start = c.place; finish = d.place; alt = div (add c.alt d.alt) (of_ℕ 2) }
      ∷ pieces d coords

  abbrev pub pieces_of : List (Coord A) → List (Segment A)
  pieces_of [] = []
  pieces_of (c ∷ coords) = pieces c coords

  unfoldable pub to_trail : List (TrailPoint A) → Option (Position A × Option A) → List (Segment A)
  unfolding pieces
  to_trail points live = pieces_of (closed (map coord_of points) live)

module _ {A : Type 0} (n : Number A) (trig : Trig A) where
  open n use {of_ℕ, lt}

  abbrev pub reported : Aircraft A → Position A
  reported a = (a.longitude, a.latitude)

  abbrev pub projected : Aircraft A → A → Option A → Option A → Position A
  projected a now none track = reported a
  projected a now (some speed) none = reported a
  projected a now (some speed) (some track) =
      if lt speed (of_ℕ 1)
      then reported a
      else let p =
          dead_reckon n trig a.latitude a.longitude speed track (project_seconds n a now) in
        (p.lng, p.lat)

  unfoldable pub live_position : Aircraft A → A → Position A
  unfolding dead_reckon
  live_position a now = projected a now a.ground_speed_kt a.track

-- `aircraftRef`, `trailRef`, `selectedRef` and `clockOffsetRef`.
pub record Flight (A : Type 0) : Type 0 where
  pub aircraft : List (Aircraft A)
  pub trail : List (TrailPoint A)
  pub selected : Option String
  pub clock_offset : A

-- A new selection; the answer to `fetchTrail` for the aircraft that was selected when it was asked;
-- a snapshot of the time `time` at `now`.
pub data Event (A : Type 0) : Type 0 where
  selects : Option String → Event A
  trail_answers : String → List (TrailPoint A) → Event A
  polls : A → A → List (Aircraft A) → Event A

abbrev pub is_selected : Option String → String → Bool
is_selected none hex = false
is_selected (some selected) hex = str_eq selected hex

-- `aircraftByHex.current.get(hex)`: of two entries the later one counts.
unfoldable pub get {ℓ} : {A : Type ℓ} → (A → String) → String → List A → Option A
get key hex [] = none
get key hex (a ∷ aircraft) = elim (get key hex aircraft) [
  | none ↦ if str_eq (key a) hex then some a else none
  | some b ↦ some b
]

module _ {A : Type 0} (n : Number A) (trig : Trig A) where
  open n use {of_ℕ, add, sub}

  unfoldable pub step : Flight A → Event A → Flight A
  step s (selects hex) = record s { selected = hex; trail = [] }
  step s (trail_answers hex points) =
      if is_selected s.selected hex then record s { trail = points } else s
  step s (polls time now aircraft) = record s { aircraft = aircraft; clock_offset = sub time now }

  unfoldable pub run : Flight A → List (Event A) → Flight A
  unfolding step
  run s [] = s
  run s (e ∷ es) = run (step s e) es

  abbrev pub live_end : A → Option (Aircraft A) → Option (Position A × Option A)
  live_end now none = none
  live_end now (some a) =
      some (live_position n trig a now, if a.on_ground then some (of_ℕ 0) else a.altitude_ft)

  abbrev pub drawn_for :
      A → List (TrailPoint A) → List (Aircraft A) → Option String → List (Segment A)
  drawn_for now trail aircraft none = []
  drawn_for now trail aircraft (some hex) =
      to_trail n trail (live_end now (get (λ (a : Aircraft A). a.hex) hex aircraft))

  -- The trail that `render` draws at a time of the visitor's clock.
  unfoldable pub drawn_trail : Flight A → A → List (Segment A)
  unfolding to_trail get live_position
  drawn_trail s clock = drawn_for (add clock s.clock_offset) s.trail s.aircraft s.selected

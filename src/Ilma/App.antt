-- ===== src/Ilma/App.antt =====
-- The air mode's state: IlmaApp.tsx. The flag of a selection is whether the screen is a phone's.
mod Selected
mod Tests
use fintraffic.Base.{
  ℕ, suc, Bool, true, false, List, [], ◌∷◌, Option, none, some, find, str_eq, if◌then◌else◌,
}
use fintraffic.Base.Number.{Number}
use fintraffic.Shared.Ids.{Text, chars, make_id}
use fintraffic.Ilma.Aircraft.{
  Aircraft, Airport, AircraftGroup, airline, general, rotorcraft, military,
}

pub record FocusRequest (A : Type 0) : Type 0 where
  pub lng : A
  pub lat : A
  pub seq : ℕ

pub record Ilma (A : Type 0) : Type 0 where
  pub aircraft : List (Aircraft A)
  pub airports : List (Airport A)
  pub selected_aircraft : Option (Aircraft A)
  pub selected_airport : Option (Airport A)
  pub focus : Option (FocusRequest A)
  pub is_filter_collapsed : Bool
  pub is_detail_collapsed : Bool

pub data Event (A : Type 0) : Type 0 where
  polls : List (Aircraft A) → Event A
  airports_come : List (Airport A) → Event A
  selects_aircraft : Bool → Aircraft A → Event A
  selects_airport : Bool → Airport A → Event A
  searches_aircraft : Bool → Aircraft A → Event A
  searches_airport : Bool → Airport A → Event A
  clears : Event A

pub record Counts : Type 0 where
  pub airline : ℕ
  pub general : ℕ
  pub rotorcraft : ℕ
  pub military : ℕ

abbrev pub counted : AircraftGroup → Counts → Counts
counted AircraftGroup.airline c = record c { airline = suc c.airline }
counted AircraftGroup.general c = record c { general = suc c.general }
counted AircraftGroup.rotorcraft c = record c { rotorcraft = suc c.rotorcraft }
counted AircraftGroup.military c = record c { military = suc c.military }

module _ {A : Type 0} where
  unfoldable pub count_all : List (Aircraft A) → Counts → Counts
  count_all [] c = c
  count_all (a ∷ aircraft) c = count_all aircraft (counted a.group c)

  unfoldable pub counts : List (Aircraft A) → Counts
  unfolding count_all
  counts aircraft =
      count_all aircraft (record { airline = 0; general = 0; rotorcraft = 0; military = 0 })

  abbrev pub or_prev : Aircraft A → Option (Aircraft A) → Aircraft A
  or_prev prev none = prev
  or_prev prev (some a) = a

  abbrev pub followed : List (Aircraft A) → Option (Aircraft A) → Option (Aircraft A)
  followed next none = none
  followed next (some prev) = some (or_prev prev (find (λ a. str_eq a.hex prev.hex) next))

  unfoldable pub on_aircraft_update : List (Aircraft A) → Ilma A → Ilma A
  on_aircraft_update next s = record s {
    aircraft = next;
    selected_aircraft = followed next s.selected_aircraft;
  }

  unfoldable pub reveal_detail : Bool → Ilma A → Ilma A
  reveal_detail mobile s = record s {
    is_detail_collapsed = false;
    is_filter_collapsed = if mobile then true else s.is_filter_collapsed;
  }

  unfoldable pub select_aircraft : Bool → Aircraft A → Ilma A → Ilma A
  unfolding reveal_detail
  select_aircraft mobile a s =
      reveal_detail mobile (record s { selected_airport = none; selected_aircraft = some a })

  unfoldable pub select_airport : Bool → Airport A → Ilma A → Ilma A
  unfolding reveal_detail
  select_airport mobile ap s =
      reveal_detail mobile (record s { selected_aircraft = none; selected_airport = some ap })

  -- `(prev?.seq ?? 0) + 1`.
  abbrev pub next_seq : Option (FocusRequest A) → ℕ
  next_seq none = 1
  next_seq (some prev) = suc prev.seq

  unfoldable pub search_aircraft : Bool → Aircraft A → Ilma A → Ilma A
  unfolding select_aircraft reveal_detail
  search_aircraft mobile a s =
      let selected = select_aircraft mobile a s in
      record selected {
        focus = some (record { lng = a.longitude; lat = a.latitude; seq = next_seq s.focus });
      }

  unfoldable pub search_airport : Bool → Airport A → Ilma A → Ilma A
  unfolding select_airport reveal_detail
  search_airport mobile ap s =
      let selected = select_airport mobile ap s in
      record selected {
        focus = some (record { lng = ap.longitude; lat = ap.latitude; seq = next_seq s.focus });
      }

  unfoldable pub clear_selection : Ilma A → Ilma A
  clear_selection s = record s { selected_aircraft = none; selected_airport = none }

  abbrev pub aircraft_key : Aircraft A → Text
  aircraft_key a = make_id (chars "aircraft") (chars a.hex)

  abbrev pub airport_key : Airport A → Text
  airport_key ap = make_id (chars "airport") (chars ap.icao)

  abbrev pub key_of : Option (Aircraft A) → Option (Airport A) → Option Text
  key_of (some a) ap = some (aircraft_key a)
  key_of none (some ap) = some (airport_key ap)
  key_of none none = none

  unfoldable pub selection_key : Ilma A → Option Text
  selection_key s = key_of s.selected_aircraft s.selected_airport

  unfoldable pub step : Event A → Ilma A → Ilma A
  unfolding on_aircraft_update select_aircraft select_airport search_aircraft search_airport
      clear_selection reveal_detail
  step (polls next) s = on_aircraft_update next s
  step (airports_come next) s = record s { airports = next }
  step (selects_aircraft mobile a) s = select_aircraft mobile a s
  step (selects_airport mobile ap) s = select_airport mobile ap s
  step (searches_aircraft mobile a) s = search_aircraft mobile a s
  step (searches_airport mobile ap) s = search_airport mobile ap s
  step clears s = clear_selection s

  unfoldable pub run : List (Event A) → Ilma A → Ilma A
  unfolding step
  run [] s = s
  run (e ∷ es) s = run es (step e s)

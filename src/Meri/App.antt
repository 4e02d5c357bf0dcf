-- ===== src/Meri/App.antt =====
-- The selection and the filters of the marine mode: MeriApp.tsx. What the program keeps in the
-- address bar and in local storage is left out; `matchMedia` is an argument of the handlers that
-- ask whether the screen is a phone's.
pub mod Selection
pub mod Filters
pub mod Link
mod Tests
use fintraffic.Base.{
  ℕ, ◌*◌, Bool, true, false, not, ◌&&◌, ◌||◌, List, [], ◌∷◌, ◌++◌, Option, none, some, String, ◌==◌,
  if◌then◌else◌, keep, any, is_some,
}
use fintraffic.Base.Dict.{Dict, lookup, keep_entries}
use fintraffic.Base.Number.{Number}
use fintraffic.Meri.Stream.{Vessel}
use fintraffic.Meri.Ship.{
  ShipCategory, passenger, cargo, tanker, highspeed, special, sailing, military, other, categorize,
}
use fintraffic.Meri.Replay.Fleet.{FleetReplay, enter}

pub record Port (A : Type 0) : Type 0 where
  pub locode : String
  pub name : String
  pub lat : A
  pub lng : A

pub record Webcam (A : Type 0) : Type 0 where
  pub id : String
  pub name : String
  pub lat : A
  pub lng : A
  pub youtube_id : String

pub record LngLat (A : Type 0) : Type 0 where
  pub lng : A
  pub lat : A

-- The selection, the filter, the pending link, and the panels; the last cell is that of
-- `useFleetReplay`.
pub record App (A : Type 0) : Type 0 where
  pub selected_mmsi : Option ℕ
  pub selected_port : Option (Port A)
  pub selected_webcam : Option (Webcam A)
  pub selected_categories : List ShipCategory
  pub pending_link : Option ℕ
  pub focus_target : Option (LngLat A)
  pub is_detail_collapsed : Bool
  pub is_filter_collapsed : Bool
  pub vessel_page_open : Bool
  pub replay : FleetReplay A

-- `===` on the categories.
unfoldable pub rank : ShipCategory → ℕ
rank passenger = 0
rank cargo = 1
rank tanker = 2
rank highspeed = 3
rank special = 4
rank sailing = 5
rank military = 6
rank other = 7

unfoldable pub same_category : ShipCategory → ShipCategory → Bool
unfolding rank
same_category c d = rank c == rank d

unfoldable pub includes : List ShipCategory → ShipCategory → Bool
unfolding same_category
includes cats c = any (λ d. same_category d c) cats

unfoldable pub toggled : ShipCategory → List ShipCategory → List ShipCategory
unfolding includes
toggled c prev =
    if includes prev c then keep (λ d. not (same_category d c)) prev else prev ++ (c ∷ [])

abbrev pub same : Option ℕ → ℕ → Bool
same none m = false
same (some k) m = k == m

module _ {A : Type 0} where
  unfoldable pub on_selection_made : Bool → App A → App A
  on_selection_made mobile s =
      if mobile
      then record s {
        is_detail_collapsed = false;
        is_filter_collapsed = true;
        vessel_page_open = false;
      }
      else record s { is_detail_collapsed = false }

  abbrev pub made_if : Bool → Bool → App A → App A
  made_if mobile chosen s = if chosen then on_selection_made mobile s else s

  unfoldable pub handle_select_vessel : Bool → Option ℕ → App A → App A
  unfolding on_selection_made
  handle_select_vessel mobile mmsi s =
      made_if mobile (is_some mmsi)
        (record s { selected_port = none; selected_webcam = none; selected_mmsi = mmsi })

  unfoldable pub handle_select_port : Bool → Port A → App A → App A
  unfolding on_selection_made
  handle_select_port mobile port s =
      on_selection_made mobile
        (record s { selected_mmsi = none; selected_webcam = none; selected_port = some port })

  unfoldable pub handle_select_webcam : Bool → Webcam A → App A → App A
  unfolding on_selection_made
  handle_select_webcam mobile webcam s =
      on_selection_made mobile
        (record s { selected_mmsi = none; selected_port = none; selected_webcam = some webcam })

  unfoldable pub handle_background_click : App A → App A
  handle_background_click s = record s {
    selected_mmsi = none;
    selected_port = none;
    selected_webcam = none;
  }

  unfoldable pub handle_toggle_category : ShipCategory → App A → App A
  unfolding toggled
  handle_toggle_category c s = record s { selected_categories = toggled c s.selected_categories }

  unfoldable pub handle_clear_filters : App A → App A
  handle_clear_filters s = record s { selected_categories = [] }

  unfoldable pub handle_close_vessel : App A → App A
  handle_close_vessel s = record s { selected_mmsi = none; vessel_page_open = false }

  unfoldable pub handle_close_port : App A → App A
  handle_close_port s = record s { selected_port = none }

  unfoldable pub handle_close_webcam : App A → App A
  handle_close_webcam s = record s { selected_webcam = none }

  -- `displayedVessels`.
  unfoldable pub displayed_vessels :
      List ShipCategory → Option ℕ → Dict (Vessel A) → Dict (Vessel A)
  unfolding keep_entries includes categorize
  displayed_vessels [] selected vessels = vessels
  displayed_vessels (c ∷ cats) selected vessels =
      keep_entries (λ k v. includes (c ∷ cats) (categorize v.ship_type) || same selected v.mmsi)
        vessels

module _ {A : Type 0} (n : Number A) where
  -- The fleet replay opens on the last three hours.
  unfoldable pub handle_enter_replay : App A → App A
  handle_enter_replay s = record s {
    selected_mmsi = none;
    selected_port = none;
    replay = enter (n.of_ℕ (3 * 3600)) s.replay;
  }

  abbrev pub settle_at : Option (Vessel A) → App A → App A
  settle_at none s = s
  settle_at (some linked) s =
      if n.is_finite linked.lat && n.is_finite linked.lng
      then record s {
        focus_target = some (record { lng = linked.lng; lat = linked.lat });
        pending_link = none;
      }
      else s

  abbrev pub settle_link_at : Option ℕ → Dict (Vessel A) → App A → App A
  settle_link_at none vessels s = s
  settle_link_at (some pending) vessels s =
      if not (same s.selected_mmsi pending)
      then record s { pending_link = none }
      else settle_at (lookup pending vessels) s

  -- What a render does with the pending link.
  unfoldable pub settle_link : Dict (Vessel A) → App A → App A
  unfolding lookup
  settle_link vessels s = settle_link_at s.pending_link vessels s

pub data Event (A : Type 0) : Type 0 where
  selects_vessel : Bool → Option ℕ → Event A
  selects_port : Bool → Port A → Event A
  selects_webcam : Bool → Webcam A → Event A
  clicks_background clears_filters closes_vessel closes_port closes_webcam enters_replay : Event A
  toggles_category : ShipCategory → Event A
  toggles_filter toggles_detail opens_page closes_page : Event A
  renders : Dict (Vessel A) → Event A

module _ {A : Type 0} (n : Number A) where
  unfoldable pub step : App A → Event A → App A
  step s (selects_vessel mobile mmsi) = handle_select_vessel mobile mmsi s
  step s (selects_port mobile port) = handle_select_port mobile port s
  step s (selects_webcam mobile webcam) = handle_select_webcam mobile webcam s
  step s clicks_background = handle_background_click s
  step s clears_filters = handle_clear_filters s
  step s closes_vessel = handle_close_vessel s
  step s closes_port = handle_close_port s
  step s closes_webcam = handle_close_webcam s
  step s enters_replay = handle_enter_replay n s
  step s (toggles_category c) = handle_toggle_category c s
  step s toggles_filter = record s { is_filter_collapsed = not s.is_filter_collapsed }
  step s toggles_detail = record s { is_detail_collapsed = not s.is_detail_collapsed }
  step s opens_page = record s { vessel_page_open = true }
  step s closes_page = record s { vessel_page_open = false }
  step s (renders vessels) = settle_link n vessels s

  unfoldable pub run : App A → List (Event A) → App A
  unfolding step
  run s [] = s
  run s (e ∷ es) = run (step s e) es

module _ {A : Type 0} where
  -- The state that the page opens with: the vessel of the link, if any.
  unfoldable pub opened : Option ℕ → Bool → FleetReplay A → App A
  opened linked mobile replay = record {
    selected_mmsi = linked;
    selected_port = none;
    selected_webcam = none;
    selected_categories = [];
    pending_link = linked;
    focus_target = none;
    is_detail_collapsed = false;
    is_filter_collapsed = mobile;
    vessel_page_open = false;
    replay = replay;
  }

-- ===== src/Raide/Selection.antt =====
-- The selection of the rail mode and the departure board: RaideApp.tsx. What the server answers for a
-- station's code is a parameter, for each answer; an answer that is not `ok` is none. Effects run with
-- the render that causes them.
pub mod Boards
mod Tests
use fintraffic.Base.{
  ℕ, suc, Bool, true, false, List, [], ◌∷◌, Option, none, some, String, ◌==◌, if◌then◌else◌,
  get_elem?,
}
use fintraffic.Raide.Trains.{Train, Board}

pub record StationMeta (A : Type 0) : Type 0 where
  pub code : String
  pub name : String
  pub latitude : A
  pub longitude : A
  pub passenger : Bool
  pub major : Bool

-- A call of `load` by the effect of number `run`.
pub record Request : Type 0 where
  pub run : ℕ
  pub code : String

pub record Raide (A : Type 0) : Type 0 where
  pub selected_train : Option (Train A)
  -- A reference to a station object.
  pub selected_station : Option ℕ
  pub board : Option (Board A)
  pub is_filter_collapsed : Bool
  pub is_detail_collapsed : Bool
  pub run : ℕ
  pub requests : List Request

pub data Event (A : Type 0) : Type 0 where
  selects_train : Bool → Train A → Event A
  selects_station : Bool → ℕ → Event A
  clears polls : Event A
  answers : ℕ → ℕ → Event A

-- An effect compares references.
abbrev pub same_ref : Option ℕ → Option ℕ → Bool
same_ref none none = true
same_ref (some a) (some b) = a == b
same_ref _ _ = false

-- The station objects, by reference.
module _ {A : Type 0} (object : ℕ → StationMeta A) where
  abbrev pub load_for : Option ℕ → Raide A → Raide A
  load_for none s = s
  load_for (some chosen) s = record s {
    requests = record { run = s.run; code = (object chosen).code } ∷ s.requests;
  }

  -- The effect: with another station the run before is cancelled, and a new one loads at once.
  unfoldable pub effect : Option ℕ → Raide A → Raide A
  effect before s =
      if same_ref before s.selected_station
      then s
      else load_for s.selected_station (record s { run = suc s.run })

module _ {A : Type 0} where
  unfoldable pub reveal_detail : Bool → Raide A → Raide A
  reveal_detail mobile s =
      if mobile
      then record s { is_detail_collapsed = false; is_filter_collapsed = true }
      else record s { is_detail_collapsed = false }

module _ {A : Type 0} (object : ℕ → StationMeta A) where
  unfoldable pub select_train : Bool → Train A → Raide A → Raide A
  unfolding effect reveal_detail
  select_train mobile train s = effect object s.selected_station (
      reveal_detail mobile
        (record s { selected_station = none; board = none; selected_train = some train }))

  unfoldable pub select_station : Bool → ℕ → Raide A → Raide A
  unfolding effect reveal_detail
  select_station mobile station s = effect object s.selected_station (
      reveal_detail mobile
        (record s { selected_train = none; board = none; selected_station = some station }))

  unfoldable pub clear_selection : Raide A → Raide A
  unfolding effect
  clear_selection s =
      effect object s.selected_station
        (record s { selected_train = none; selected_station = none; board = none })

module _ {A : Type 0} (object : ℕ → StationMeta A) (serve : String → ℕ → Option (Board A)) where
  abbrev pub with_answer : Option (Board A) → Raide A → Raide A
  with_answer none s = s
  with_answer (some board) s = record s { board = some board }

  abbrev pub answered : Option Request → ℕ → Raide A → Raide A
  answered none time s = s
  answered (some r) time s = if r.run == s.run then with_answer (serve r.code time) s else s

  unfoldable pub step : Raide A → Event A → Raide A
  unfolding select_train select_station clear_selection
  step s (selects_train mobile train) = select_train object mobile train s
  step s (selects_station mobile station) = select_station object mobile station s
  step s clears = clear_selection object s
  step s polls = load_for object s.selected_station s
  step s (answers i time) = answered (get_elem? s.requests i) time s

  unfoldable pub run_all : Raide A → List (Event A) → Raide A
  unfolding step
  run_all s [] = s
  run_all s (e ∷ es) = run_all (step s e) es

module _ {A : Type 0} where
  unfoldable pub initial : Bool → Raide A
  initial mobile = record {
    selected_train = none;
    selected_station = none;
    board = none;
    is_filter_collapsed = mobile;
    is_detail_collapsed = false;
    run = 0;
    requests = [];
  }

-- ===== src/Shared/Sheet.antt =====
-- The phone's one sheet: hooks/useSheetView.ts. Keys are compared only, so they are numbers here.
pub mod Views
mod Tests
use fintraffic.Base.{
  ℕ, Bool, true, false, not, ◌||◌, Option, none, some, ◌==◌, if◌then◌else◌, is_some, List, [], ◌∷◌,
}

pub data SheetView : Type 0 where
  detail browse : SheetView

pub record Sheet : Type 0 where
  pub view : SheetView
  pub last_key : Option ℕ

abbrev pub same_key : Option ℕ → Option ℕ → Bool
same_key none none = true
same_key (some a) (some b) = a == b
same_key _ _ = false

abbrev pub is_browse : SheetView → Bool
is_browse browse = true
is_browse detail = false

unfoldable pub initial : Option ℕ → Sheet
initial selection_key = record { view = detail; last_key = selection_key }

-- The adjustment of a render: a new selection shows the detail.
unfoldable pub render : Option ℕ → Sheet → Sheet
render selection_key s = if same_key selection_key s.last_key then s else record {
  view = if is_some selection_key then detail else s.view;
  last_key = selection_key;
}

unfoldable pub show_browse : Sheet → Sheet
show_browse s = record s { view = browse }

unfoldable pub show_detail : Sheet → Sheet
show_detail s = record s { view = detail }

unfoldable pub browse_open : Bool → Option ℕ → Sheet → Bool
browse_open is_mobile selection_key s =
    not is_mobile || (not (is_some selection_key) || is_browse s.view)

unfoldable pub detail_open : Bool → Sheet → Bool
detail_open is_mobile s = not is_mobile || not (is_browse s.view)

pub data Event : Type 0 where
  renders : Option ℕ → Event
  shows_browse shows_detail : Event

unfoldable pub step : Sheet → Event → Sheet
unfolding render show_browse show_detail
step s (renders k) = render k s
step s shows_browse = show_browse s
step s shows_detail = show_detail s

unfoldable pub run : Sheet → List Event → Sheet
unfolding step
run s [] = s
run s (e ∷ es) = run (step s e) es

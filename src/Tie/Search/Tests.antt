-- ===== src/Tie/Search/Tests.antt =====
-- A camera picked from the search.
use fintraffic.Base.{ℕ, ◌+◌, ◌≡◌, refl, true, false, [], ◌∷◌, none, some}
use fintraffic.Base.Int.{ℤ, pos}
use fintraffic.Base.Number.Milli.{milli}
use fintraffic.Shared.Ids.{Text, chars, text_eq, parse_id}
use fintraffic.Tie.Traffic.{light}
use fintraffic.Tie.Search.{
  Selection, Tie, WeathercamStation, camera, selection_id, pick_search_result, search_items,
}
use fintraffic.Tie.Search.Picks.{pick-selects}

-- Numbers of one digit.
abbrev digit : ℕ → Text
digit d = (b'0' + d) ∷ []

abbrev as_is : Text → Text
as_is t = t

abbrev hki : WeathercamStation ℤ
hki = record {
  id = "C01:502";
  name = "Tie 1 Espoo";
  longitude = pos 25_000;
  latitude = pos 60_000;
  presets = [];
  weather = none;
}

abbrev opened : Tie ℤ
opened = record {
  selection = none;
  feeds = record {
    stations = [];
    facilities = [];
    cameras = record hki { id = "C01" } ∷ hki ∷ [];
    chargers = [];
    weathers = [];
  };
  is_filter_collapsed = false;
  is_detail_collapsed = true;
}

-- A key may have a colon; an id of no kind selects nothing.
camera_picked :
    (pick_search_result digit true (chars "camera:C01:502") opened).selection ≡ some (camera hki)
unfolding pick_search_result
camera_picked = refl

unknown_kind : pick_search_result digit true (chars "bus:1") opened ≡ opened
unfolding pick_search_result
unknown_kind = refl

no_colon : parse_id (chars "abc") ≡ (chars "ab", chars "abc")
unfolding parse_id
no_colon = refl

pick-selects_example :
    (x : Selection ℤ) × ((pick_search_result digit true (chars "camera:C01:502") opened).selection
      ≡ some x)
    × (selection_id digit x ≡ chars "camera:C01:502")
unfolding search_items text_eq
pick-selects_example =
    pick-selects milli digit as_is true light (chars "camera:C01:502") opened refl

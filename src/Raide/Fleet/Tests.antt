-- ===== src/Raide/Fleet/Tests.antt =====
-- A commuter train that is late after the second answer, and a cargo train.
use Prim.Native.String.{String}
use fintraffic.Base.{ℕ, ◌≡◌, refl, true, false, List, [], ◌∷◌, none, some, ◌==◌, if◌then◌else◌}
use fintraffic.Base.Int.{ℤ, pos, negsuc}
use fintraffic.Base.Number.{Number}
use fintraffic.Base.Number.Milli.{milli}
use fintraffic.Shared.Ids.{text_eq}
use fintraffic.Raide.Trains.{Train}
use fintraffic.Raide.Fleet.{train_group, train_key, follow, followed, or_prev, count_all, counts}
use fintraffic.Raide.Fleet.Followed.{follow-last_seen, last_seen}

abbrev print : ℤ → String
print (pos k) = if k == 8000 then "8000" else "9000"
print (negsuc k) = ""

-- Numbers that print as the two train numbers.
abbrev numbers : Number ℤ
numbers = record milli { text = print }

abbrev train : ℕ → String → ℕ → Train ℤ
train number category delay = record {
  train_number = pos number;
  departure_date = "2026-01-01";
  train_type = "HL";
  category = category;
  commuter_line = "";
  operator = "vr";
  cancelled = false;
  latitude = pos 60_000;
  longitude = pos 25_000;
  speed = pos 0;
  timestamp = "";
  delay_min = pos delay;
  has_delay = true;
  origin = "HKI";
  dest = "TPE";
  depart_time = "";
  arrive_time = "";
  next_stop = none;
  stops = none;
}

abbrev first_answer : List (Train ℤ)
first_answer = train 8000 "Commuter" 0 ∷ []

abbrev last_answer : List (Train ℤ)
last_answer = train 9000 "Cargo" 0 ∷ train 8000 "Commuter" 4000 ∷ []

-- The selected train, which the last answer has lost.
abbrev selected : Train ℤ
selected = train 8000 "Commuter" 0

abbrev all_answers : List (List (Train ℤ))
all_answers = first_answer ∷ last_answer ∷ [] ∷ []

follow-last_seen_example :
    (follow numbers all_answers (some selected)
      ≡ some
          (or_prev numbers selected (last_seen numbers (train_key numbers selected) all_answers)))
    × (train_key numbers
          (or_prev numbers selected (last_seen numbers (train_key numbers selected) all_answers))
        ≡ train_key numbers selected)
follow-last_seen_example = follow-last_seen numbers all_answers selected

keeps_lost : follow numbers all_answers (some selected) ≡ some (train 8000 "Commuter" 4000)
unfolding follow followed text_eq train_key
keeps_lost = refl

takes_late :
    follow numbers (first_answer ∷ last_answer ∷ []) (some (train 8000 "Commuter" 0))
    ≡ some (train 8000 "Commuter" 4000)
unfolding follow followed text_eq train_key
takes_late = refl

one_of_each : counts last_answer ≡ record { long_distance = 0; commuter = 1; cargo = 1; other = 0 }
unfolding counts count_all train_group
one_of_each = refl

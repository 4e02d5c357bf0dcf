-- ===== src/Raide/Fleet.antt =====
-- The trains of an answer of the server: lib/trains.ts, and `onTrainsUpdate` and `counts` of RaideApp.tsx.
mod Followed
mod Tests
use Prim.Native.String.{String}
use fintraffic.Base.{
  ℕ, suc, Bool, true, false, List, [], ◌∷◌, ◌++◌, Option, none, some, find, str_eq, if◌then◌else◌,
}
use fintraffic.Base.Number.{Number}
use fintraffic.Shared.Ids.{Text, chars, text_eq}
use fintraffic.Raide.Trains.{Train, TrainGroup, long_distance, commuter, cargo, other}

unfoldable pub train_group : String → TrainGroup
train_group category =
    if str_eq category "Long-distance"
    then long_distance
    else if str_eq category "Commuter"
    then commuter
    else if str_eq category "Cargo"
    then cargo
    else other

module _ {A : Type 0} (n : Number A) where
  open n use {text}

  -- The template `${trainNumber}/${departureDate}`.
  unfoldable pub train_key : Train A → Text
  train_key t = chars (text t.train_number) ++ (b'/' ∷ chars t.departure_date)

  unfoldable pub train_label : Train A → Text
  train_label train =
      if str_eq train.commuter_line ""
      then chars train.train_type ++ (b' ' ∷ chars (text train.train_number))
      else chars train.commuter_line

  abbrev pub or_prev : Train A → Option (Train A) → Train A
  or_prev prev none = prev
  or_prev prev (some t) = t

  -- What `onTrainsUpdate` leaves selected.
  unfoldable pub followed : List (Train A) → Option (Train A) → Option (Train A)
  unfolding train_key text_eq
  followed next none = none
  followed next (some prev) =
      some (or_prev prev (find (λ t. text_eq (train_key t) (train_key prev)) next))

  -- A run of answers.
  unfoldable pub follow : List (List (Train A)) → Option (Train A) → Option (Train A)
  unfolding followed
  follow [] selected = selected
  follow (next ∷ answers) selected = follow answers (followed next selected)

pub record Counts : Type 0 where
  pub long_distance : ℕ
  pub commuter : ℕ
  pub cargo : ℕ
  pub other : ℕ

abbrev pub empty_counts : Counts
empty_counts = record { long_distance = 0; commuter = 0; cargo = 0; other = 0 }

abbrev pub counted : TrainGroup → Counts → Counts
counted TrainGroup.long_distance c = record c { long_distance = suc c.long_distance }
counted TrainGroup.commuter c = record c { commuter = suc c.commuter }
counted TrainGroup.cargo c = record c { cargo = suc c.cargo }
counted TrainGroup.other c = record c { other = suc c.other }

unfoldable pub count_all : {A : Type 0} → List (Train A) → Counts → Counts
unfolding train_group
count_all [] c = c
count_all (t ∷ trains) c = count_all trains (counted (train_group t.category) c)

unfoldable pub counts : {A : Type 0} → List (Train A) → Counts
unfolding count_all
counts trains = count_all trains empty_counts

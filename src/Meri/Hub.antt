-- ===== src/Meri/Hub.antt =====
-- The server's end of the live stream, for the only client that is connected: backend/internal/meri/ws/hub.go.
-- The positions are what the cache answers; no answer fails, and no message is skipped.
pub mod Merged
pub mod Synced
mod Tests
use fintraffic.Base.{
  ℕ, Bool, true, false, not, ◌&&◌, List, [], ◌∷◌, Option, none, some, String, is_some, length,
  if◌then◌else◌,
}
use fintraffic.Base.Dict.{Dict, lookup, keep_entries}
use fintraffic.Base.Number.{Number}
use fintraffic.Meri.Stream.{Vessel, StreamMessage, snapshot, delta, handle_message}

-- `h.lastSent`, and the map of vessels of the client.
pub record Link (A : Type 0) : Type 0 where
  pub last_sent : Dict A
  pub vessels : Dict (Vessel A)

abbrev pub keys_of : {V : Type 0} → Dict V → List ℕ
keys_of [] = []
keys_of ((k, v) ∷ m) = k ∷ keys_of m

abbrev pub is_empty : {V : Type 0} → List V → Bool
is_empty [] = true
is_empty (x ∷ xs) = false

-- The tag `omitempty`.
abbrev pub omit_empty : List ℕ → Option (List ℕ)
omit_empty [] = none
omit_empty (k ∷ ks) = some (k ∷ ks)

module _ {A : Type 0} where
  -- `tsMap`, of `extractTs`.
  unfoldable pub ts_map : Dict (Vessel A) → Dict A
  ts_map [] = []
  ts_map ((k, v) ∷ positions) = (k, v.ts) ∷ ts_map positions

  unfoldable pub gone_from : Dict A → Dict A → List ℕ
  unfolding lookup keep_entries
  gone_from last now = keys_of (keep_entries (λ k t. not (is_some (lookup k now))) last)

  abbrev pub snapshot_of : String → Dict (Vessel A) → StreamMessage A
  snapshot_of time positions = record {
    type = snapshot;
    timestamp = time;
    vessels = positions;
    removed = none;
    count = length positions;
  }

  -- `sendSnapshotToClient`, which the client that is alone gets.
  unfoldable pub connect : String → Dict (Vessel A) → Dict (Vessel A) → Link A
  unfolding ts_map handle_message
  connect time positions m = record {
    last_sent = ts_map positions;
    vessels = handle_message (snapshot_of time positions) m;
  }

module _ {A : Type 0} (n : Number A) where
  open n use {lt}

  abbrev pub is_newer : Option A → A → Bool
  is_newer none ts = true
  is_newer (some prev) ts = lt prev ts

  unfoldable pub changed_since : Dict A → Dict (Vessel A) → Dict (Vessel A)
  unfolding lookup keep_entries
  changed_since last positions = keep_entries (λ k v. is_newer (lookup k last) v.ts) positions

  -- `broadcast`.
  unfoldable pub broadcast : Bool → String → Dict (Vessel A) → Link A → Link A
  unfolding ts_map gone_from changed_since handle_message
  broadcast true time positions s = record {
    last_sent = ts_map positions;
    vessels = handle_message (snapshot_of time positions) s.vessels;
  }
  broadcast false time positions s =
      let changed = changed_since s.last_sent positions in
      let removed = gone_from s.last_sent (ts_map positions) in
      let sent : StreamMessage A = record {
        type = delta;
        timestamp = time;
        vessels = changed;
        removed = omit_empty removed;
        count = length positions;
      } in
      if is_empty changed && is_empty removed
      then s
      else record { last_sent = ts_map positions; vessels = handle_message sent s.vessels }

  -- Ticks in a row: whether each is a resync, its time and what the cache answers.
  unfoldable pub run : List (Bool × String × Dict (Vessel A)) → Link A → Link A
  unfolding broadcast
  run [] s = s
  run ((full, time, positions) ∷ ticks) s = run ticks (broadcast full time positions s)

-- ===== src/Meri/Stream/Tests.antt =====
-- A delta and a snapshot of two vessels.
use fintraffic.Base.{ℕ, ◌≡◌, refl, [], ◌∷◌, none, some}
use fintraffic.Base.Int.{ℤ, pos}
use fintraffic.Base.Dict.{Dict, lookup, IsDistinct, insert, remove, spread}
use fintraffic.Meri.Stream.{Vessel, StreamMessage, snapshot, delta, handle_message}
use fintraffic.Meri.Stream.Messages.{expected, lookup-handle_message}

abbrev ship : ℕ → ℕ → Vessel ℤ
ship mmsi sog = record {
  mmsi = mmsi;
  lat = pos 60_000;
  lng = pos 25_000;
  sog = pos sog;
  cog = pos 0;
  hdg = none;
  nav_stat = 0;
  rot = none;
  ts = pos 0;
  source = none;
  name = none;
  call_sign = none;
  dest = none;
  ship_type = some 70;
  imo = none;
  draught = none;
  eta = none;
}

abbrev fleet : Dict (Vessel ℤ)
fleet = (1, ship 1 5) ∷ (2, ship 2 6) ∷ []

abbrev changes : StreamMessage ℤ
changes = record {
  type = delta;
  timestamp = "";
  vessels = (3, ship 3 1) ∷ (1, ship 1 9) ∷ [];
  removed = some (2 ∷ []);
  count = 2;
}

abbrev resync : StreamMessage ℤ
resync = record { type = snapshot; timestamp = ""; vessels = fleet; removed = none; count = 2 }

merged : handle_message changes fleet ≡ (1, ship 1 9) ∷ (3, ship 3 1) ∷ []
unfolding handle_message insert remove spread
merged = refl

lookup-handle_message_example :
    lookup 2 (handle_message changes fleet) ≡ expected delta changes.vessels (2 ∷ []) 2 fleet
unfolding IsDistinct lookup
lookup-handle_message_example = lookup-handle_message changes 2 fleet (refl, (refl, tt))

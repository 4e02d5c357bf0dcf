-- ===== src/Meri/Hub/Tests.antt =====
-- A ship that moves, one that is lost, one that is new, and a tick with nothing to send.
use fintraffic.Base.{ℕ, ◌≡◌, refl, Bool, true, false, List, [], ◌∷◌, none, String}
use fintraffic.Base.Int.{ℤ, pos}
use fintraffic.Base.Dict.{Dict, lookup, keep_entries, IsDistinct, insert, remove, spread}
use fintraffic.Base.Number.Milli.{milli, milli-IsOrdered}
use fintraffic.Meri.Stream.{Vessel, handle_message, remove_all}
use fintraffic.Meri.Hub.{ts_map, gone_from, connect, changed_since, broadcast, run}
use fintraffic.Meri.Hub.Merged.{held, ts_of}
use fintraffic.Meri.Hub.Synced.{client_keeps_up, latest}

abbrev ship : ℕ → ℕ → Vessel ℤ
ship mmsi ts = record {
  mmsi = mmsi;
  lat = pos 60_000;
  lng = pos 25_000;
  sog = pos 0;
  cog = pos 0;
  hdg = none;
  nav_stat = 0;
  rot = none;
  ts = pos ts;
  source = none;
  name = none;
  call_sign = none;
  dest = none;
  ship_type = none;
  imo = none;
  draught = none;
  eta = none;
}

abbrev at_start : Dict (Vessel ℤ)
at_start = (1, ship 1 5) ∷ (2, ship 2 5) ∷ []

abbrev later : Dict (Vessel ℤ)
later = (1, ship 1 9) ∷ (3, ship 3 7) ∷ []

abbrev ticks : List (Bool × String × Dict (Vessel ℤ))
ticks = (false, "", at_start) ∷ (false, "", later) ∷ []

synced : (run milli ticks (connect "" at_start [])).vessels ≡ later
unfolding run connect broadcast changed_since gone_from ts_map handle_message remove_all spread
    insert remove lookup keep_entries
synced = refl

client_keeps_up_example :
    held milli
      (ts_of (lookup 3 (latest ticks at_start)))
      (lookup 3 (run milli ticks (connect "" at_start ((9, ship 9 1) ∷ []))).vessels)
    ≡ true
unfolding IsDistinct lookup
client_keeps_up_example =
    client_keeps_up milli milli-IsOrdered "" at_start ((9, ship 9 1) ∷ []) ticks 3
      (refl, (refl, tt)) ((refl, (refl, tt)), ((refl, (refl, tt)), tt))

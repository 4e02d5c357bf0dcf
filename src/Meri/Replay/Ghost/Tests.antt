-- ===== src/Meri/Replay/Ghost/Tests.antt =====
-- A paused track of two fixes, scrubbed to 30 s, in thousandths.
use fintraffic.Base.{ℕ, ◌+◌, ◌≡◌, refl, false, List, [], ◌∷◌, some}
use fintraffic.Base.Int.{ℤ, pos}
use fintraffic.Base.Number.Milli.{milli, milli-IsOrdered}
use fintraffic.Meri.Replay.Pose.{Fix}
use fintraffic.Meri.Replay.Track.{TrackReplayControl}
use fintraffic.Meri.Replay.Ghost.{Ghost, Meta, sync, frames, covered_line}
use fintraffic.Meri.Replay.Ghost.Resting.{
  poses, paintings, others, to_report, to_paint, counts-frames,
}

abbrev fix : ℕ → ℕ → Fix ℤ
fix t x = record { lng = pos x; lat = pos 60_000; ts = pos t; cog = pos 0; sog = pos 0 }

abbrev paused : ℕ → TrackReplayControl ℤ
paused nonce = record {
  mmsi = 7;
  points = fix 0 20_000 ∷ fix 60_000 21_000 ∷ [];
  from = pos 0;
  to = pos 60_000;
  playing = false;
  rate = pos 1000;
  seek_nonce = nonce;
  seek_ts = pos 30_000;
  fleet = [];
}

abbrev names : Meta
names = (7, ("vessel-cargo", "Aino")) ∷ []

abbrev resting : Ghost ℤ
resting = record {
  time = pos 0;
  prev = pos 0;
  ended = false;
  seek_nonce = some 1;
  last_progress = pos 0;
  pose_dirty = false;
  draw_dirty = false;
  last_set_data = pos 0;
}

abbrev scrubbed : Ghost ℤ
scrubbed = (sync (some (paused 1)) (some (paused 2)) false resting).0

abbrev later : List (ℤ × ℤ)
later = (pos 1_000_000, pos 16_000) ∷ (pos 1_200_000, pos 16_000) ∷ (pos 1_400_000, pos 16_000) ∷ []

-- The line reaches the ghost between its fixes.
reaches_ghost :
    covered_line milli
      (paused 1).points
      (pos 30_000)
      (some (record { lng = pos 20_500; lat = pos 60_000; hdg = pos 0; sog = pos 0 }))
    ≡ (pos 20_000, pos 60_000) ∷ (pos 20_500, pos 60_000) ∷ []
unfolding covered_line
reaches_ghost = refl

counts-frames_example :
    (poses (frames milli (paused 2) names later scrubbed).1
        + to_report milli milli-IsOrdered
            (paused 2)
            names
            refl
            (frames milli (paused 2) names later scrubbed).0
      ≡ to_report milli milli-IsOrdered (paused 2) names refl scrubbed)
    × (paintings (frames milli (paused 2) names later scrubbed).1
          + to_paint milli milli-IsOrdered
              (paused 2)
              names
              refl
              (frames milli (paused 2) names later scrubbed).0
        ≡ to_paint milli milli-IsOrdered (paused 2) names refl scrubbed)
    × (others (frames milli (paused 2) names later scrubbed).1 ≡ 0)
counts-frames_example = counts-frames milli milli-IsOrdered (paused 2) names refl later scrubbed

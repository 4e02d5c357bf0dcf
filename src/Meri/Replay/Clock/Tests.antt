-- ===== src/Meri/Replay/Clock/Tests.antt =====
-- Two frames at the end of a window, in thousandths.
use fintraffic.Base.{◌+◌, ◌≡◌, refl, true, false, [], ◌∷◌, none, some, arith, All}
use fintraffic.Base.Int.{ℤ, pos}
use fintraffic.Base.Number.Milli.{milli, milli-IsOrdered}
use fintraffic.Meri.Replay.Fleet.{ReplayControl}
use fintraffic.Meri.Replay.Clock.{Clock, Frame, frame, frames, advance, report, sync}
use fintraffic.Meri.Replay.Clock.Bounds.{IsInWindow, frames_within}
use fintraffic.Meri.Replay.Clock.Ending.{endings, flag, endings-frames, frames_reach_end}

-- One second of recorded time, at sixty times the pace.
abbrev one_second : ReplayControl ℤ
one_second = record {
  vessels = [];
  from = pos 0;
  to = pos 1000;
  playing = true;
  speed = pos 60_000;
  seek_nonce = 1;
  seek_ts = pos 0;
}

abbrev at_start : Clock ℤ
at_start = record { time = pos 0; ended = false; seek_nonce = some 1; last_progress = pos 0 }

abbrev ten_ms : Frame milli
ten_ms = record { selected = none; now = pos 200_000; dt = pos 10_000 }

two_frames : (frames milli one_second (ten_ms ∷ ten_ms ∷ []) at_start).0.time ≡ pos 1000
unfolding frames frame advance report
two_frames = refl

seek_moves_clock :
    (sync
      (some one_second)
      (some (record one_second { seek_nonce = 2; seek_ts = pos 500 }))
      at_start).time
    ≡ pos 500
unfolding sync
seek_moves_clock = refl

frames_within_example :
    (milli.le (frames milli one_second (ten_ms ∷ ten_ms ∷ []) at_start).0.time (pos 1000) ≡ true)
    × All
        (IsInWindow milli milli-IsOrdered one_second)
        (frames milli one_second (ten_ms ∷ ten_ms ∷ []) at_start).1
frames_within_example =
    frames_within milli milli-IsOrdered one_second (ten_ms ∷ ten_ms ∷ []) at_start refl

endings-frames_example :
    endings (frames milli one_second (ten_ms ∷ ten_ms ∷ ten_ms ∷ []) at_start).1 + 0
    ≡ flag (frames milli one_second (ten_ms ∷ ten_ms ∷ ten_ms ∷ []) at_start).0.ended
endings-frames_example = endings-frames milli one_second (ten_ms ∷ ten_ms ∷ ten_ms ∷ []) at_start

abbrev almost : Clock ℤ
almost = record at_start { time = pos 998 }

frames_reach_end_example : (frames milli one_second (ten_ms ∷ ten_ms ∷ []) almost).0.ended ≡ true
frames_reach_end_example =
    frames_reach_end one_second (ten_ms ∷ ten_ms ∷ []) almost refl refl (omega arith) (omega arith)
      (omega arith)

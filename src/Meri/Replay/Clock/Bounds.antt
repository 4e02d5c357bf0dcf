-- ===== src/Meri/Replay/Clock/Bounds.antt =====
-- The clock never runs past the end of the window.
use fintraffic.Base.{ℕ, ◌≡◌, true, List, [], ◌∷◌, ◌++◌, Option, arith, All}
use fintraffic.Base.Number.{Number, IsOrdered}
use fintraffic.Meri.Replay.Fleet.{ReplayControl}
use fintraffic.Meri.Replay.Clock.{
  Clock, Callback, on_progress, advance, report, frame, Frame, frames,
}

module _ {A : Type 0} (n : Number A) (o : IsOrdered n) (c : ReplayControl A) where
  -- A report of the playhead lies in the window.
  abbrev pub IsInWindow : Callback A → Type 0
  IsInWindow (on_progress t) = n.le t c.to ≡ true
  IsInWindow _ = Unit

  advance-le :
      (dt : A) (k : Clock A) → n.le k.time c.to ≡ true → n.le (advance n c dt k).0.time c.to ≡ true
  unfolding advance
  advance-le dt k h = ground (
    arith,
    o.le_refl c.to,
    o.lt_not_le (n.add k.time (n.mul (n.div dt (n.of_ℕ 1000)) c.speed)) c.to,
    o.lt_le (n.add k.time (n.mul (n.div dt (n.of_ℕ 1000)) c.speed)) c.to,
  )

  time-report :
      (selected : Option ℕ) (now : A) (k : Clock A) → (report n c selected now k).0.time ≡ k.time
  unfolding report
  time-report selected now k = ground arith

  All-append :
      (xs ys : List (Callback A))
      → All IsInWindow xs
      → All IsInWindow ys
      → All IsInWindow (xs ++ ys)
  All-append [] ys h k = k
  All-append (x ∷ xs) ys h k = (h.0, All-append xs ys h.1 k)

  advance-IsInWindow : (dt : A) (k : Clock A) → All IsInWindow (advance n c dt k).1
  unfolding advance
  advance-IsInWindow dt k = ground (arith, o.le_refl c.to)

  report-IsInWindow :
      (selected : Option ℕ) (now : A) (k : Clock A)
      → n.le k.time c.to ≡ true
      → All IsInWindow (report n c selected now k).1
  unfolding report
  report-IsInWindow selected now k h = ground arith

  -- Under one control and whatever the frames, a clock that starts in the window stays at or before
  -- its end, and so does every playhead that is reported to React.
  pub frames_within :
      (fs : List (Frame n)) (k : Clock A)
      → n.le k.time c.to ≡ true
      → (n.le (frames n c fs k).0.time c.to ≡ true) × All IsInWindow (frames n c fs k).1
  unfolding frames frame
  frames_within [] k h = (h, tt)
  frames_within (f ∷ fs) k h =
      let moved = advance n c f.dt k in
      let inside = advance-le f.dt k h in
      let later =
        frames_within fs (report n c f.selected f.now moved.0).0
          (rw (time-report f.selected f.now moved.0) inside) in
      (
        later.0,
        All-append _ _
            (All-append _ _ (advance-IsInWindow f.dt k)
              (report-IsInWindow f.selected f.now moved.0 inside))
            later.1,
      )

-- ===== src/Meri/Replay/Ghost/Resting.antt =====
-- A paused track replay comes to rest.
use fintraffic.Base.{ℕ, ◌+◌, ◌≡◌, refl, Bool, true, false, ◌||◌, List, [], ◌∷◌, ◌++◌, arith}
use fintraffic.Base.Number.{Number, IsOrdered}
use fintraffic.Meri.Replay.Track.{TrackReplayControl}
use fintraffic.Meri.Replay.Ghost.{
  Ghost, Meta, Output, on_progress, on_ended, on_pose, paints, clears, moves, advance, notice,
  report, draw, frame, frames,
}

abbrev pub flag : Bool → ℕ
flag true = 1
flag false = 0

module _ {A : Type 0} where
  -- How often the pose is reported, the overlay painted, and anything else told.
  abbrev pub poses : List (Output A) → ℕ
  poses [] = 0
  poses (on_pose p ∷ os) = 1 + poses os
  poses (_ ∷ os) = poses os

  abbrev pub paintings : List (Output A) → ℕ
  paintings [] = 0
  paintings (paints p ∷ os) = 1 + paintings os
  paintings (_ ∷ os) = paintings os

  abbrev pub others : List (Output A) → ℕ
  others [] = 0
  others (on_pose p ∷ os) = others os
  others (paints p ∷ os) = others os
  others (_ ∷ os) = 1 + others os

  -- The counts of two lists in a row are added.
  counts-append :
      (xs ys : List (Output A))
      → (poses (xs ++ ys) ≡ poses xs + poses ys)
        × (paintings (xs ++ ys) ≡ paintings xs + paintings ys)
        × (others (xs ++ ys) ≡ others xs + others ys)
  counts-append [] ys = omega arith
  counts-append (on_progress t ∷ xs) ys = omega (arith, counts-append xs ys)
  counts-append (on_ended ∷ xs) ys = omega (arith, counts-append xs ys)
  counts-append (on_pose p ∷ xs) ys = omega (arith, counts-append xs ys)
  counts-append (paints p ∷ xs) ys = omega (arith, counts-append xs ys)
  counts-append (clears ∷ xs) ys = omega (arith, counts-append xs ys)

module _ {A : Type 0} (n : Number A) (order : IsOrdered n) (c : TrackReplayControl A) (meta : Meta)
    (paused : c.playing ≡ false) where
  advance_paused : (dt : A) (g : Ghost A) → advance n c dt g ≡ (g, [])
  unfolding advance
  advance_paused dt g = rw paused refl

  notice_lem :
      (g : Ghost A)
      → (moves n (notice n g) ≡ false)
        × ((notice n g).pose_dirty ≡ (moves n g || g.pose_dirty))
        × ((notice n g).draw_dirty ≡ (moves n g || g.draw_dirty))
  unfolding notice
  notice_lem g = ground (arith, order.le_refl g.time)

  counts-report :
      (now : A) (g : Ghost A)
      → (poses (report n c now g).1 + flag (report n c now g).0.pose_dirty ≡ flag g.pose_dirty)
        × (paintings (report n c now g).1 ≡ 0)
        × (others (report n c now g).1 ≡ 0)
        × ((report n c now g).0.draw_dirty ≡ g.draw_dirty)
        × (moves n (report n c now g).0 ≡ moves n g)
  unfolding report
  counts-report now g = ground (arith, paused)

  counts-draw :
      (now : A) (g : Ghost A)
      → (poses (draw n c now meta g).1 ≡ 0)
        × (paintings (draw n c now meta g).1 + flag (draw n c now meta g).0.draw_dirty
            ≡ flag g.draw_dirty)
        × (others (draw n c now meta g).1 ≡ 0)
        × ((draw n c now meta g).0.pose_dirty ≡ g.pose_dirty)
        × (moves n (draw n c now meta g).0 ≡ moves n g)
  unfolding draw
  counts-draw now g = ground arith

  -- What is still to be reported, and to be painted.
  abbrev pub to_report : Ghost A → ℕ
  to_report g = flag (moves n g || g.pose_dirty)

  abbrev pub to_paint : Ghost A → ℕ
  to_paint g = flag (moves n g || g.draw_dirty)

  counts-frame :
      (now dt : A) (g : Ghost A)
      → (poses (frame n c meta now dt g).1 + to_report (frame n c meta now dt g).0 ≡ to_report g)
        × (paintings (frame n c meta now dt g).1 + to_paint (frame n c meta now dt g).0
            ≡ to_paint g)
        × (others (frame n c meta now dt g).1 ≡ 0)
  unfolding frame
  counts-frame now dt g =
      let seen = notice n g in
      let told = report n c now seen in
      let noticed = notice_lem g in
      let reported = counts-report now seen in
      let drawn = counts-draw now told.0 in
      rw (advance_paused dt g) (
        ground (
          arith,
          counts-append told.1 (draw n c now meta told.0).1,
          noticed.0,
          noticed.1,
          noticed.2,
          reported.0,
          reported.1,
          reported.2,
          reported.3,
          reported.4,
          drawn.0,
          drawn.1,
          drawn.2,
          drawn.3,
          drawn.4,
        ))

  -- While the track replay is paused, and for any frames: how often they report the pose and what is
  -- then still to be reported are together what was to be reported before, that is one report if the
  -- clock had moved or was marked and none otherwise; the same holds of the paintings of the overlay;
  -- and the frames tell nothing else.
  pub counts-frames :
      (fs : List (A × A)) (g : Ghost A)
      → (poses (frames n c meta fs g).1 + to_report (frames n c meta fs g).0 ≡ to_report g)
        × (paintings (frames n c meta fs g).1 + to_paint (frames n c meta fs g).0 ≡ to_paint g)
        × (others (frames n c meta fs g).1 ≡ 0)
  unfolding frames
  counts-frames [] g = omega arith
  counts-frames ((now, dt) ∷ fs) g =
      let first = frame n c meta now dt g in
      omega (
        arith,
        counts-append first.1 (frames n c meta fs first.0).1,
        counts-frame now dt g,
        counts-frames fs first.0,
      )

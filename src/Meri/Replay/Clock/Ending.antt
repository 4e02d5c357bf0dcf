-- ===== src/Meri/Replay/Clock/Ending.antt =====
-- The end of the window is reported once, and is reached.
use fintraffic.Base.{
  ℕ, ◌+◌, ◌≤◌, ◌≡◌, Bool, true, false, List, [], ◌∷◌, ◌++◌, Option, arith, All, length, ap, ◌⊎◌,
  inl, inr,
}
use fintraffic.Base.Int.{ℤ, pos, pos_part, neg_part}
use fintraffic.Base.Number.{Number}
use fintraffic.Base.Number.Milli.{milli}
use fintraffic.Meri.Replay.Fleet.{ReplayControl}
use fintraffic.Meri.Replay.Clock.{Clock, Callback, on_ended, advance, report, frame, Frame, frames}

abbrev pub flag : Bool → ℕ
flag true = 1
flag false = 0

module _ {A : Type 0} where
  -- How often `onEnded` is called.
  abbrev pub endings : List (Callback A) → ℕ
  endings [] = 0
  endings (on_ended ∷ cs) = 1 + endings cs
  endings (_ ∷ cs) = endings cs

  endings-append : (xs ys : List (Callback A)) → endings (xs ++ ys) ≡ endings xs + endings ys
  endings-append [] ys = omega arith
  endings-append (on_ended ∷ xs) ys = omega (arith, endings-append xs ys)
  endings-append (_ ∷ xs) ys = omega (arith, endings-append xs ys)

module _ {A : Type 0} (n : Number A) (c : ReplayControl A) where
  endings-advance :
      (dt : A) (k : Clock A)
      → endings (advance n c dt k).1 + flag k.ended ≡ flag (advance n c dt k).0.ended
  unfolding advance
  endings-advance dt k = ground arith

  endings-report :
      (selected : Option ℕ) (now : A) (k : Clock A)
      → (endings (report n c selected now k).1 ≡ 0)
        × ((report n c selected now k).0.ended ≡ k.ended)
  unfolding report
  endings-report selected now k = ground arith

  -- Under one control and whatever the frames, `onEnded` is called once if the clock ends during
  -- them and not at all otherwise; a clock that has ended stays so.
  pub endings-frames :
      (fs : List (Frame n)) (k : Clock A)
      → endings (frames n c fs k).1 + flag k.ended ≡ flag (frames n c fs k).0.ended
  unfolding frames frame
  endings-frames [] k = omega arith
  endings-frames (f ∷ fs) k =
      let moved = advance n c f.dt k in
      let reported = report n c f.selected f.now moved.0 in
      let quiet = endings-report f.selected f.now moved.0 in
      let later = endings-frames fs reported.0 in
      omega (
        arith,
        endings-append (moved.1 ++ reported.1) (frames n c fs reported.0).1,
        endings-append moved.1 reported.1,
        endings-advance f.dt k,
        quiet.0,
        ap flag quiet.1,
        later,
      )

  ended-frames :
      (fs : List (Frame n)) (k : Clock A) → k.ended ≡ true → (frames n c fs k).0.ended ≡ true
  ended-frames fs k h = ground (arith, endings-frames fs k)

module _ (c : ReplayControl ℤ) where
  -- The recorded time that a frame covers, in thousandths of a second.
  abbrev pub covered : ℤ → ℤ
  covered dt = milli.mul (milli.div dt (milli.of_ℕ 1000)) c.speed

  abbrev pub Before : ℕ → ℤ → ℤ → Type 0
  Before d a b = pos_part a + neg_part b + d ≤ pos_part b + neg_part a

  time-report :
      (selected : Option ℕ) (now : ℤ) (k : Clock ℤ)
      → ((report milli c selected now k).0.time ≡ k.time)
        × ((report milli c selected now k).0.ended ≡ k.ended)
  unfolding report
  time-report selected now k = ground arith

  advance_step :
      (dt : ℤ) (k : Clock ℤ)
      → c.playing ≡ true
      → k.ended ≡ false
      → Before 1 (pos 0) (covered dt)
      → let k' = (advance milli c dt k).0 in
        (k'.ended ≡ true) ⊎ ((k'.ended ≡ false) × Before 1 k'.time c.to × Before 1 k.time k'.time)
  unfolding advance
  advance_step dt k playing going moves = ground arith

  -- In exact thousandths: while it plays, and if each frame covers at least a thousandth of a second
  -- of recorded time, the clock reaches the end of the window within as many frames as there are
  -- thousandths left.
  pub frames_reach_end :
      (fs : List (Frame milli)) (k : Clock ℤ)
      → c.playing ≡ true
      → k.ended ≡ false
      → Before 1 k.time c.to
      → All (λ f. Before 1 (pos 0) (covered f.dt)) fs
      → pos_part c.to + neg_part k.time ≤ pos_part k.time + neg_part c.to + length fs
      → (frames milli c fs k).0.ended ≡ true
  unfolding frames frame
  frames_reach_end [] k playing going early moves enough = absurd (omega arith)
  frames_reach_end (f ∷ fs) k playing going early moves enough =
      elim (advance_step f.dt k playing going moves.0) [
        | inl done ↦ ended-frames milli c fs _ (rw (same.1) done)
        | inr (on, before, after) ↦
            frames_reach_end fs _ playing (rw (same.1) on) (rw (same.0) before) moves.1
              (rw (same.0) (omega arith))
      ]
    where
      same :
          ((report milli c f.selected f.now (advance milli c f.dt k).0).0.time
            ≡ (advance milli c f.dt k).0.time)
          × ((report milli c f.selected f.now (advance milli c f.dt k).0).0.ended
              ≡ (advance milli c f.dt k).0.ended)
      same = time-report f.selected f.now (advance milli c f.dt k).0

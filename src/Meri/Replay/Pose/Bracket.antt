-- ===== src/Meri/Replay/Pose/Bracket.antt =====
-- The binary search of `poseAt` ends on two neighbouring fixes around the playhead.
use fintraffic.Base.{
  ℕ, zero, suc, ◌+◌, ◌-◌, ◌/◌, ◌≤◌, ◌<◌, ◌≡◌, refl, ◌⊎◌, inl, inr, true, false, List, ◌∷◌, Option,
  ltb, length, get_or, arith, Bool-cases,
}
use fintraffic.Base.Number.{Number, IsOrdered}
use fintraffic.Meri.Replay.Pose.{Fix, bracket, segment_pose, pose_at}

module _ {A : Type 0} (n : Number A) (first : Fix A) (pts : List (Fix A)) (t : A) where
  abbrev Reached : ℕ → Type 0
  Reached i = n.le (get_or pts i first).ts t ≡ true

  -- What the search keeps of its two ends, where `top` is the index that `hi` starts from.
  record Around (top : ℕ) (r : ℕ × ℕ) : Type 0 where
    ordered : r.0 < r.1
    within : r.1 ≤ top
    reached : Reached r.0
    ahead : (r.1 ≡ top) ⊎ (n.le (get_or pts r.1 first).ts t ≡ false)

  bracket-Around :
      (top fuel lo hi : ℕ)
      → hi ≤ lo + fuel + 1
      → Around top (lo, hi)
      → Around top (bracket n fuel first pts t lo hi)
        × ((bracket n fuel first pts t lo hi).1 ≡ (bracket n fuel first pts t lo hi).0 + 1)
  unfolding bracket
  bracket-Around top zero lo hi h a = (a, omega (arith, a.ordered))
  bracket-Around top (suc fuel) lo hi h a = elim (Bool-cases (ltb 1 (hi - lo))) [
    | inl wide ↦ elim (Bool-cases (n.le (get_or pts ((lo + hi) / 2) first).ts t)) [
      | inl before ↦
          rw (wide, before)
            (bracket-Around top fuel ((lo + hi) / 2) hi (ground arith) (record {
              ordered = ground arith;
              within = a.within;
              reached = before;
              ahead = a.ahead;
            }))
      | inr later ↦
          rw (wide, later)
            (bracket-Around top fuel lo ((lo + hi) / 2) (ground arith) (record {
              ordered = ground arith;
              within = ground arith;
              reached = a.reached;
              ahead = inr later;
            }))
    ]
    | inr done ↦ rw done (a, ground arith)
  ]

-- The fix at an index of a track that is not empty.
abbrev pub fix : {A : Type 0} → Fix A → List (Fix A) → ℕ → Fix A
fix first rest i = get_or (first ∷ rest) i first

module _ {A : Type 0} (n : Number A) (o : IsOrdered n) where
  open n use {le, lt}

  le→lt-false : (a b : A) → le a b ≡ true → lt b a ≡ false
  le→lt-false a b h = ground (arith, o.lt_not_le b a)

  le-false→le : (a b : A) → le a b ≡ false → le b a ≡ true
  le-false→le a b h = ground (arith, o.lt_not_le b a, o.lt_le b a)

  le-false→lt : (a b : A) → le a b ≡ false → lt b a ≡ true
  le-false→lt a b h = ground (arith, o.lt_not_le b a)

  -- Between its first and its last fix a track of two fixes or more is at the pose that
  -- `segment_pose` gives for two neighbouring fixes, of which the earlier one is not after the
  -- playhead and the later one not before it; the later one is after the playhead if it is not the
  -- last fix.
  pub pose_at-segment_pose :
      (first : Fix A) (rest : List (Fix A)) (t : A) (max_gap : Option A)
      → 0 < length rest
      → le first.ts t ≡ true
      → le t (fix first rest (length rest)).ts ≡ true
      → (i : ℕ) × (i < length rest)
        × (le (fix first rest i).ts t ≡ true)
        × (le t (fix first rest (i + 1)).ts ≡ true)
        × ((i + 1 ≡ length rest) ⊎ (lt t (fix first rest (i + 1)).ts ≡ true))
        × (pose_at n (first ∷ rest) t max_gap
            ≡ segment_pose n (fix first rest i) (fix first rest (i + 1)) t max_gap)
  unfolding pose_at
  pose_at-segment_pose first rest t max_gap two from upto = (
    ends.0,
    omega (arith, found.0.ordered, found.0.within),
    found.0.reached,
    after found.0.ahead,
    strictly found.0.ahead,
    e,
  )
    where
      pts : List (Fix A)
      pts = first ∷ rest

      ends : ℕ × ℕ
      ends = bracket n (length pts) first pts t 0 (length rest)

      found : Around n first pts t (length rest) ends × (ends.1 ≡ ends.0 + 1)
      found =
          bracket-Around n first pts t (length rest) (length pts) 0 (length rest) (omega arith)
            (record { ordered = two; within = omega arith; reached = from; ahead = inl refl })

      after :
          (ends.1 ≡ length rest) ⊎ (le (get_or pts ends.1 first).ts t ≡ false)
          → le t (get_or pts (ends.0 + 1) first).ts ≡ true
      after (inl last) = rw (← found.1, last) upto
      after (inr ahead) = rw (← found.1) (le-false→le _ _ ahead)

      strictly :
          (ends.1 ≡ length rest) ⊎ (le (get_or pts ends.1 first).ts t ≡ false)
          → (ends.0 + 1 ≡ length rest) ⊎ (lt t (get_or pts (ends.0 + 1) first).ts ≡ true)
      strictly (inl last) = inl (omega (arith, found.1))
      strictly (inr ahead) = inr (rw (← found.1) (le-false→lt _ _ ahead))

      e :
          pose_at n pts t max_gap
          ≡ segment_pose n (get_or pts ends.0 first) (get_or pts (ends.0 + 1) first) t max_gap
      e = rw (le→lt-false _ _ from, le→lt-false _ _ upto, ← found.1)

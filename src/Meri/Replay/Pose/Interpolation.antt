-- ===== src/Meri/Replay/Pose/Interpolation.antt =====
-- What `poseAt` gives along a track: between two fixes, at a fix, in a coverage gap and at the ends.
use fintraffic.Base.{
  ℕ, zero, suc, ◌+◌, ◌*◌, ◌≤◌, ◌<◌, ◌≡◌, refl, ◌⊎◌, inl, inr, true, false, List, [], ◌∷◌, Option,
  none, some, length, get_or, arith, All, All-get_or, ap, ◌↔◌, Bool-cases, subst, ◌∙◌, dec_lt,
}
use fintraffic.Base.Number.{Number, IsOrdered, IsRounded, HasZero}
use fintraffic.Meri.Replay.Pose.{
  Fix, ReplayPose, at_fix, segment_pose, pose_at, replay_edge_hold_sec, lerp_angle, over_gap,
}
use fintraffic.Meri.Replay.Pose.Bracket.{fix, pose_at-segment_pose}

-- Each fix of the track is strictly later than those before it.
abbrev pub IsAscending : {A : Type 0} → Number A → List (Fix A) → Type 0
IsAscending n [] = Unit
IsAscending n (p ∷ rest) = All (λ q. n.lt p.ts q.ts ≡ true) rest × IsAscending n rest

module _ {A : Type 0} (n : Number A) (o : IsOrdered n) where
  open n use {le, lt, sub, add, mul}

  lt_of_IsAscending :
      (d : Fix A) (pts : List (Fix A)) (i j : ℕ)
      → IsAscending n pts
      → i < j
      → j < length pts
      → lt (get_or pts i d).ts (get_or pts j d).ts ≡ true
  lt_of_IsAscending d [] i j a h k = absurd (omega arith)
  lt_of_IsAscending d (p ∷ pts) i zero a h k = absurd (omega arith)
  lt_of_IsAscending d (p ∷ pts) zero (suc j) a h k =
      All-get_or (λ q. lt p.ts q.ts ≡ true) d pts j a.0 (omega arith)
  lt_of_IsAscending d (p ∷ pts) (suc i) (suc j) a h k =
      lt_of_IsAscending d pts i j a.1 (omega arith) (omega arith)

  le_of_IsAscending :
      (first : Fix A) (rest : List (Fix A)) (i j : ℕ)
      → IsAscending n (first ∷ rest)
      → i ≤ j
      → j ≤ length rest
      → le (fix first rest i).ts (fix first rest j).ts ≡ true
  le_of_IsAscending first rest i j a h k = elim (dec_lt i j) [
    | yes p ↦ o.lt_le _ _ (lt_of_IsAscending first (first ∷ rest) i j a p (omega arith))
    | no p ↦ let e : i ≡ j = omega arith in rw e (o.le_refl _)
  ]

  not_lt_of_le : (a b : A) → le a b ≡ true → lt b a ≡ true → ⊥
  not_lt_of_le a b h k = ground (arith, o.lt_not_le b a)

  -- Only one pair of neighbours stands around a playhead.
  index_unique :
      (first : Fix A) (rest : List (Fix A)) (i k : ℕ) (t : A)
      → IsAscending n (first ∷ rest)
      → i < length rest
      → k < length rest
      → le (fix first rest i).ts t ≡ true
      → ((i + 1 ≡ length rest) ⊎ (lt t (fix first rest (i + 1)).ts ≡ true))
      → le (fix first rest k).ts t ≡ true
      → lt t (fix first rest (k + 1)).ts ≡ true
      → i ≡ k
  index_unique first rest i k t a hi hk from_i before_i from_k before_k = elim (dec_lt k i) [
    | yes p ↦ absurd (
        not_lt_of_le _ _
          (o.le_trans _ _ _ (le_of_IsAscending first rest (k + 1) i a (omega arith) (omega arith))
            from_i)
          before_k)
    | no p ↦ elim (dec_lt i k) [ yes q ↦ absurd (early q before_i) | no q ↦ omega arith ]
  ]
    where
      early : i < k → (i + 1 ≡ length rest) ⊎ (lt t (fix first rest (i + 1)).ts ≡ true) → ⊥
      early q (inl e) = omega arith
      early q (inr b) =
          not_lt_of_le _ _
            (o.le_trans _ _ _ (le_of_IsAscending first rest (i + 1) k a (omega arith) (omega arith))
              from_k)
            b

  -- On a track whose times ascend strictly, for a playhead at or after fix `k` and before fix
  -- `k + 1`, the pose is the one between those two fixes.
  pub pose_at-segment :
      (first : Fix A) (rest : List (Fix A)) (k : ℕ) (t : A) (max_gap : Option A)
      → IsAscending n (first ∷ rest)
      → k < length rest
      → le (fix first rest k).ts t ≡ true
      → lt t (fix first rest (k + 1)).ts ≡ true
      → pose_at n (first ∷ rest) t max_gap
        ≡ segment_pose n (fix first rest k) (fix first rest (k + 1)) t max_gap
  pose_at-segment first rest k t max_gap a h from before =
      let found =
        pose_at-segment_pose n o first rest t max_gap (omega arith)
          (o.le_trans _ _ _ (le_of_IsAscending first rest 0 k a (omega arith) (omega arith)) from)
          (o.le_trans _ _ _ (o.lt_le _ _ before)
            (le_of_IsAscending first rest (k + 1) (length rest) a (omega arith) (omega arith))) in
      let same = index_unique first rest found.0 k t a found.1 h found.2 found.4 from before in
      subst
        (λ i.
          pose_at n (first ∷ rest) t max_gap
          ≡ segment_pose n (fix first rest i) (fix first rest (i + 1)) t max_gap)
        same found.5

  -- In a track played with a largest gap, no pose is given inside a longer gap once the playhead is
  -- more than the edge hold after the fix before it and before the fix after it.
  pub pose_at-gap :
      (first : Fix A) (rest : List (Fix A)) (k : ℕ) (t gap : A)
      → IsAscending n (first ∷ rest)
      → k < length rest
      → le (fix first rest k).ts t ≡ true
      → lt t (fix first rest (k + 1)).ts ≡ true
      → let span = sub (fix first rest (k + 1)).ts (fix first rest k).ts in
        le span (n.of_ℕ 0) ≡ false
        → lt gap span ≡ true
        → le (sub t (fix first rest k).ts) (replay_edge_hold_sec n) ≡ false
        → le (sub (fix first rest (k + 1)).ts t) (replay_edge_hold_sec n) ≡ false
        → pose_at n (first ∷ rest) t (some gap) ≡ none
  unfolding segment_pose
  pose_at-gap first rest k t gap a h from before wide over far ahead =
      pose_at-segment first rest k t (some gap) a h from before ∙ rw (wide, over, far, ahead)

  -- Played with no largest gap, as the track replay does, a track has no pose
  -- exactly before its first fix and more than the edge hold after its last one.
  pub pose_at-eq-none_iff :
      (first : Fix A) (rest : List (Fix A)) (t : A)
      → let last = fix first rest (length rest) in
        (pose_at n (first ∷ rest) t none ≡ none) ↔ (
          (lt t first.ts ≡ true)
          ⊎ ((lt last.ts t ≡ true) × (le (sub t last.ts) (replay_edge_hold_sec n) ≡ false)))
  unfolding pose_at segment_pose
  pose_at-eq-none_iff first rest t = (λ e. ground arith, λ h. ground arith)

  -- Without a gap the interpolation starts at the earlier fix, and a gap holds it there.
  segment_pose_start :
      HasZero n
      → IsRounded n
      → (a b : Fix A) (max_gap : Option A) → lt a.ts b.ts ≡ true
      → (p : ReplayPose A) × (segment_pose n a b a.ts max_gap ≡ some p)
        × (p.lng ≡ a.lng)
        × (p.lat ≡ a.lat)
        × (p.sog ≡ a.sog)
  unfolding segment_pose
  segment_pose_start z r a b max_gap later =
      elim (Bool-cases (over_gap n (sub b.ts a.ts) max_gap)) [
        | inl gap ↦ (
          at_fix a,
          rw (positive, gap, z.sub_self a.ts, r.of_ℕ_mono 0 (5 * 60) (omega arith)),
          refl,
          refl,
          refl,
        )
        | inr joined ↦ (
          record {
            lng = add a.lng (mul (sub b.lng a.lng) fraction);
            lat = add a.lat (mul (sub b.lat a.lat) fraction);
            hdg = lerp_angle n a.cog b.cog fraction;
            sog = add a.sog (mul (sub b.sog a.sog) fraction);
          },
          rw (positive, joined),
          rw start (still a.lng (sub b.lng a.lng)),
          rw start (still a.lat (sub b.lat a.lat)),
          rw start (still a.sog (sub b.sog a.sog)),
        )
      ]
    where
      fraction : A
      fraction = n.div (sub a.ts a.ts) (sub b.ts a.ts)

      positive : le (sub b.ts a.ts) (n.of_ℕ 0) ≡ false
      positive =
          let h = z.sub_pos a.ts b.ts later in
          ground (arith, o.lt_not_le (n.of_ℕ 0) (sub b.ts a.ts), h)

      start : fraction ≡ n.of_ℕ 0
      start =
          ap (λ x. n.div x (sub b.ts a.ts)) (z.sub_self a.ts)
          ∙ z.zero_div _ (z.sub_pos a.ts b.ts later)

      still : (x d : A) → add x (mul d (n.of_ℕ 0)) ≡ x
      still x d = rw (z.mul_zero d) (z.add_zero x)

  -- At any fix of an ascending track but the last, the pose has the longitude, latitude and speed
  -- of that fix, whatever the largest gap.
  pub pose_at-fix :
      HasZero n
      → IsRounded n
      → (first : Fix A) (rest : List (Fix A)) (k : ℕ) (max_gap : Option A)
      → IsAscending n (first ∷ rest)
      → k < length rest
      → let here = fix first rest k in
        (p : ReplayPose A) × (pose_at n (first ∷ rest) here.ts max_gap ≡ some p)
        × (p.lng ≡ here.lng)
        × (p.lat ≡ here.lat)
        × (p.sog ≡ here.sog)
  pose_at-fix z r first rest k max_gap a h =
      let later = lt_of_IsAscending first (first ∷ rest) k (k + 1) a (omega arith) (omega arith) in
      let found =
        segment_pose_start z r (fix first rest k) (fix first rest (k + 1)) max_gap later in
      (
        found.0,
        pose_at-segment first rest k _ max_gap a h (o.le_refl _) later ∙ found.1,
        found.2,
        found.3,
        found.4,
      )

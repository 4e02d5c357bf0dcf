-- ===== src/Meri/Replay/Pose/Tests.antt =====
-- A recorded track with a coverage gap, at concrete playheads, in thousandths.
use fintraffic.Base.{
  ℕ, ◌+◌, ◌*◌, ◌≡◌, refl, List, [], ◌∷◌, none, some, arith, ◌↔◌, ◌⊎◌, true, false,
}
use fintraffic.Base.Int.{ℤ, pos}
use fintraffic.Base.Number.Milli.{milli, milli-IsOrdered, milli-IsRounded, milli-HasZero}
use fintraffic.Meri.Replay.Pose.{
  Fix, ReplayPose, pose_at, segment_pose, bracket, lerp_angle, turn, lerp,
}
use fintraffic.Meri.Replay.Pose.Rounds.{bracket-ends}
use fintraffic.Meri.Replay.Pose.Interpolation.{
  IsAscending, pose_at-segment, pose_at-gap, pose_at-fix, pose_at-eq-none_iff,
}

abbrev recorded : ℕ → ℕ → Fix ℤ
recorded t x = record {
  lng = pos (1000 * x);
  lat = pos 60_000;
  ts = pos (1000 * t);
  cog = pos 350_000;
  sog = pos 12_000;
}

-- Fixes at 0 s, 60 s, 120 s and, after a gap, 3000 s.
abbrev later_fixes : List (Fix ℤ)
later_fixes = recorded 60 21 ∷ recorded 120 22 ∷ recorded 3000 30 ∷ []

abbrev track : List (Fix ℤ)
track = recorded 0 20 ∷ later_fixes

half_way :
    pose_at milli track (pos 90_000) (some (pos 1_200_000))
    ≡ some (record { lng = pos 21_500; lat = pos 60_000; hdg = pos 350_000; sog = pos 12_000 })
unfolding pose_at segment_pose bracket lerp_angle turn
half_way = refl

-- From 350° to 20° the heading turns through north.
through_north : lerp_angle milli (pos 350_000) (pos 20_000) (pos 500) ≡ pos 5_000
unfolding lerp_angle turn
through_north = refl

lerp_half : lerp milli (pos 10_000) (pos 20_000) (pos 500) ≡ pos 15_000
unfolding lerp
lerp_half = refl

ascending : IsAscending milli track
ascending = ((refl, (refl, (refl, tt))), ((refl, (refl, tt)), ((refl, tt), (tt, tt))))

pose_at-segment_example :
    pose_at milli track (pos 90_000) none
    ≡ segment_pose milli (recorded 60 21) (recorded 120 22) (pos 90_000) none
pose_at-segment_example =
    pose_at-segment milli milli-IsOrdered (recorded 0 20) later_fixes 1 (pos 90_000) none ascending
      (omega arith) refl refl

pose_at-gap_example : pose_at milli track (pos 1_500_000) (some (pos 1_200_000)) ≡ none
pose_at-gap_example =
    pose_at-gap milli milli-IsOrdered (recorded 0 20) later_fixes 2 (pos 1_500_000) (pos 1_200_000)
      ascending (omega arith) refl refl refl refl refl refl

pose_at-fix_example :
    (p : ReplayPose ℤ) × (pose_at milli track (pos 120_000) (some (pos 1_200_000)) ≡ some p)
    × (p.lng ≡ pos 22_000)
    × (p.lat ≡ pos 60_000)
    × (p.sog ≡ pos 12_000)
pose_at-fix_example =
    pose_at-fix milli milli-IsOrdered milli-HasZero milli-IsRounded (recorded 0 20) later_fixes 2
      (some (pos 1_200_000)) ascending (omega arith)

pose_at-eq-none_iff_example : (pose_at milli track (pos 4_000_000) none ≡ none) ↔ (
    (milli.lt (pos 4_000_000) (pos 0) ≡ true)
    ⊎ ((milli.lt (pos 3_000_000) (pos 4_000_000) ≡ true)
        × (milli.le (pos 1_000_000) (pos 300_000) ≡ false)))
pose_at-eq-none_iff_example =
    pose_at-eq-none_iff milli milli-IsOrdered (recorded 0 20) later_fixes (pos 4_000_000)

bracket-ends_example :
    ((bracket milli 2 (recorded 0 20) track (pos 90_000) 0 3).1
      ≡ (bracket milli 2 (recorded 0 20) track (pos 90_000) 0 3).0 + 1)
    × (bracket milli 4 (recorded 0 20) track (pos 90_000) 0 3
        ≡ bracket milli 2 (recorded 0 20) track (pos 90_000) 0 3)
bracket-ends_example =
    bracket-ends milli (recorded 0 20) track (pos 90_000) 2 4 0 3 (omega arith) (omega arith)
      (omega arith)

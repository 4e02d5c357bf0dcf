-- ===== src/Meri/Replay/Pose.antt =====
-- Where a vessel is on its recorded track: lib/lerp.ts, and `poseAt` of components/Map.tsx.
pub mod Bracket
pub mod Interpolation
pub mod Rounds
mod Tests
use fintraffic.Base.{
  ℕ, zero, suc, ◌+◌, ◌-◌, ◌*◌, ◌/◌, Bool, true, false, List, [], ◌∷◌, Option, none, some, ltb,
  if◌then◌else◌, length, get_or,
}
use fintraffic.Base.Number.{Number}

-- `TrailPoint` and `ReplayPoint`: [lng, lat, ts, cog, sog].
pub record Fix (A : Type 0) : Type 0 where
  pub lng : A
  pub lat : A
  pub ts : A
  pub cog : A
  pub sog : A

pub record ReplayPose (A : Type 0) : Type 0 where
  pub lng : A
  pub lat : A
  pub hdg : A
  pub sog : A

abbrev pub at_fix : {A : Type 0} → Fix A → ReplayPose A
at_fix p = record { lng = p.lng; lat = p.lat; hdg = p.cog; sog = p.sog }

module _ {A : Type 0} (n : Number A) where
  open n use {of_ℕ, add, sub, mul, div, rem, le, lt}

  unfoldable pub lerp : A → A → A → A
  lerp start stop t = add start (mul (sub stop start) t)

  -- `diff` of `lerpAngle`: the turn from `start` to `stop`, the short way round.
  unfoldable pub turn : A → A → A
  turn start stop =
      let diff = rem (sub stop start) (of_ℕ 360) in
      let up = if lt diff (sub (of_ℕ 0) (of_ℕ 180)) then add diff (of_ℕ 360) else diff in
      if lt (of_ℕ 180) up then sub up (of_ℕ 360) else up

  unfoldable pub lerp_angle : A → A → A → A
  lerp_angle start stop t = rem (add (add start (mul (turn start stop) t)) (of_ℕ 360)) (of_ℕ 360)

  -- `REPLAY_MAX_GAP_SEC` and `REPLAY_EDGE_HOLD_SEC`.
  abbrev pub replay_max_gap_sec : A
  replay_max_gap_sec = of_ℕ (20 * 60)

  abbrev pub replay_edge_hold_sec : A
  replay_edge_hold_sec = of_ℕ (5 * 60)

  -- The binary search of `poseAt`; each round halves `hi - lo`, and `pts[mid]` is in range.
  unfoldable pub bracket : ℕ → Fix A → List (Fix A) → A → ℕ → ℕ → ℕ × ℕ
  bracket zero first pts t lo hi = (lo, hi)
  bracket (suc fuel) first pts t lo hi =
      let mid = (lo + hi) / 2 in
      let right = bracket fuel first pts t mid hi in
      let left = bracket fuel first pts t lo mid in
      if ltb 1 (hi - lo) then (if le (get_or pts mid first).ts t then right else left) else (lo, hi)

  -- `span > maxGapSec`, where `none` is Infinity.
  abbrev pub over_gap : A → Option A → Bool
  over_gap span none = false
  over_gap span (some gap) = lt gap span

  -- The pose between two neighbouring fixes `a` and `b`.
  unfoldable pub segment_pose : Fix A → Fix A → A → Option A → Option (ReplayPose A)
  segment_pose a b t max_gap =
      let span = sub b.ts a.ts in
      let f = div (sub t a.ts) span in
      if le span (of_ℕ 0)
      then some (at_fix a)
      else if over_gap span max_gap
      then (if le (sub t a.ts) replay_edge_hold_sec
          then some (at_fix a)
          else if le (sub b.ts t) replay_edge_hold_sec
          then some (at_fix b)
          else none)
      else some (record {
        lng = add a.lng (mul (sub b.lng a.lng) f);
        lat = add a.lat (mul (sub b.lat a.lat) f);
        hdg = lerp_angle a.cog b.cog f;
        sog = add a.sog (mul (sub b.sog a.sog) f);
      })

  unfoldable pub pose_at : List (Fix A) → A → Option A → Option (ReplayPose A)
  pose_at [] t max_gap = none
  pose_at (first ∷ rest) t max_gap =
      let pts = first ∷ rest in
      let last = get_or pts (length rest) first in
      let ends = bracket (length pts) first pts t 0 (length rest) in
      if lt t first.ts
      then none
      else if lt last.ts t
      then (if le (sub t last.ts) replay_edge_hold_sec then some (at_fix last) else none)
      else segment_pose (get_or pts ends.0 first) (get_or pts ends.1 first) t max_gap

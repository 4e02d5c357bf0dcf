-- ===== src/Meri/Replay/Pose/Rounds.antt =====
-- How many rounds the binary search of `poseAt` takes.
use fintraffic.Base.{
  ℕ, zero, suc, ◌+◌, ◌-◌, ◌*◌, ◌/◌, ◌^◌, ◌≤◌, ◌<◌, ◌≡◌, refl, false, List, ltb, get_or, arith,
  Bool-cases, inl, inr,
}
use fintraffic.Base.Number.{Number}
use fintraffic.Meri.Replay.Pose.{Fix, bracket}

module _ {A : Type 0} (n : Number A) (first : Fix A) (pts : List (Fix A)) (t : A) where
  pow-suc : (k : ℕ) → 2 ^ suc k ≡ 2 * 2 ^ k
  pow-suc k = omega arith

  pow-pos : (k : ℕ) → 0 < 2 ^ k
  pow-pos zero = omega arith
  pow-pos (suc k) = omega (arith, pow-suc k, pow-pos k)

  -- Two neighbouring ends stay, whatever the fuel.
  bracket-done : (k lo hi : ℕ) → ltb 1 (hi - lo) ≡ false → bracket n k first pts t lo hi ≡ (lo, hi)
  unfolding bracket
  bracket-done zero lo hi done = refl
  bracket-done (suc k) lo hi done = rw done refl

  -- The binary search ends: if its two ends are at most `2 ^ k` fixes apart, it has come to two
  -- neighbouring fixes after `k` rounds, and further rounds change nothing.
  pub bracket-ends :
      (k fuel lo hi : ℕ)
      → lo < hi
      → hi ≤ lo + 2 ^ k
      → k ≤ fuel
      → ((bracket n k first pts t lo hi).1 ≡ (bracket n k first pts t lo hi).0 + 1)
        × (bracket n fuel first pts t lo hi ≡ bracket n k first pts t lo hi)
  unfolding bracket
  bracket-ends zero fuel lo hi h w f =
      (omega (arith, h, w), bracket-done fuel lo hi (ground (arith, h, w)))
  bracket-ends (suc k) zero lo hi h w f = absurd (omega (arith, f))
  bracket-ends (suc k) (suc fuel) lo hi h w f = elim (Bool-cases (ltb 1 (hi - lo))) [
    | inr done ↦ rw done (ground (arith, done, h), refl)
    | inl wide ↦ elim (Bool-cases (n.le (get_or pts ((lo + hi) / 2) first).ts t)) [
      | inl before ↦
          rw (wide, before)
            (bracket-ends k fuel ((lo + hi) / 2) hi (ground (arith, wide))
              (omega (arith, w, pow-suc k)) (omega (arith, f)))
      | inr later ↦
          rw (wide, later)
            (bracket-ends k fuel lo ((lo + hi) / 2) (ground (arith, wide))
              (omega (arith, w, pow-suc k)) (omega (arith, f)))
    ]
  ]

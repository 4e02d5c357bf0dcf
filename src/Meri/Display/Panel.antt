-- ===== src/Meri/Display/Panel.antt =====
-- The panel shows the selected vessel, and during the fleet replay nothing live.
use fintraffic.Base.{ℕ, ◌≡◌, refl, true, not, Option, none, some, arith, ◌==◌, if_cases, ap, subst}
use fintraffic.Base.Dict.{Dict, lookup}
use fintraffic.Meri.Stream.{Vessel}
use fintraffic.Meri.Replay.Fleet.{SelectedPose}
use fintraffic.Meri.Display.{displayed_vessel, replay_vessel, replayed}

module _ {A : Type 0} where
  -- The vessel has the position, course, speed and time of the pose.
  abbrev pub HasPose : SelectedPose A → Vessel A → Type 0
  HasPose p v =
      (v.lat ≡ p.lat) × ((v.lng ≡ p.lng) × ((v.cog ≡ p.cog) × ((v.sog ≡ p.sog) × (v.ts ≡ p.ts))))

  the_vessel : Vessel A → Option (Vessel A) → Vessel A
  the_vessel d none = d
  the_vessel d (some v) = v

  some_injective : (a b : Vessel A) → some a ≡ some b → a ≡ b
  unfolding the_vessel
  some_injective a b e = ap (the_vessel a) e

  replayed-HasPose :
      (mmsi : ℕ) (pose : SelectedPose A) (o : Option (Vessel A))
      → ((replayed mmsi pose o).mmsi ≡ mmsi) × HasPose pose (replayed mmsi pose o)
  replayed-HasPose mmsi pose none = (refl, (refl, (refl, (refl, (refl, refl)))))
  replayed-HasPose mmsi pose (some v) = (refl, (refl, (refl, (refl, (refl, refl)))))

  -- What a pose makes of the panel: no vessel without a selection and a pose of it, else the
  -- selected one at the pose.
  unfoldable pub IsReplayed : Option ℕ → Option (SelectedPose A) → Vessel A → Type 0
  IsReplayed none pose v = ⊥
  IsReplayed (some m) none v = ⊥
  IsReplayed (some m) (some p) v = (p.mmsi ≡ m) × ((v.mmsi ≡ m) × HasPose p v)

  replay_vessel-IsReplayed :
      (selected : Option ℕ) (pose : Option (SelectedPose A)) (vessels : Dict (Vessel A))
      (v : Vessel A)
      → replay_vessel selected pose vessels ≡ some v
      → IsReplayed selected pose v
  unfolding replay_vessel IsReplayed
  replay_vessel-IsReplayed none pose vessels v e = absurd (ground (arith, e))
  replay_vessel-IsReplayed (some m) none vessels v e = absurd (ground (arith, e))
  replay_vessel-IsReplayed (some m) (some p) vessels v e =
      if_cases (λ (o : Option (Vessel A)). o ≡ some v → IsReplayed (some m) (some p) v)
        (not (p.mmsi == m)) (λ h f. absurd (ground (arith, f)))
        (λ h f. (
          ground (arith, h),
          subst (λ w. (w.mmsi ≡ m) × HasPose p w) (some_injective _ v f)
              (replayed-HasPose m p (lookup m vessels)),
        ))
        e

  -- While the fleet replay is active, a vessel in the panel is the selected one, at the position,
  -- course, speed and time of the replay's pose of it, never the live ones; without a selection or
  -- without a pose of it there is none.
  pub displayed_vessel-IsReplayed :
      (selected : Option ℕ) (replay_pose track_pose : Option (SelectedPose A))
      (vessels : Dict (Vessel A)) (v : Vessel A)
      → displayed_vessel true selected replay_pose track_pose vessels ≡ some v
      → IsReplayed selected replay_pose v
  unfolding displayed_vessel
  displayed_vessel-IsReplayed selected replay_pose track_pose vessels v e =
      replay_vessel-IsReplayed selected replay_pose vessels v e

-- ===== src/Meri/Live/Received.antt =====
-- How long a fix has been on the map, for the projection of components/Map.tsx.
use fintraffic.Base.{
  ℕ, ◌≡◌, refl, false, List, [], ◌∷◌, Option, none, some, ap, ◌∙◌, sym, ◌==◌, Bool-cases, ==_iff,
  inl, inr,
}
use fintraffic.Base.Dict.{Dict, lookup}
use fintraffic.Base.Number.{Number, IsOrdered}
use fintraffic.Shared.Geo.{Trig}
use fintraffic.Meri.Stream.{Vessel}
use fintraffic.Meri.Live.{
  Live, TargetPos, Event, updates, draws, next_targets, target_of, received, equals, ingest,
  draw_live, step, run,
}

abbrev mapped : {A B : Type 0} → (A → B) → Option A → Option B
mapped f none = none
mapped f (some a) = some (f a)

module _ {A : Type 0} (n : Number A) where
  lookup-next_targets :
      (now : A) (id : ℕ) (targets : Dict (TargetPos A)) (vessels : Dict (Vessel A))
      → lookup id (next_targets n now targets vessels)
        ≡ mapped (target_of n (lookup id targets) now) (lookup id vessels)
  unfolding next_targets lookup
  lookup-next_targets now id targets [] = refl
  lookup-next_targets now id targets ((k, v) ∷ vessels) = elim (Bool-cases (k == id)) [
    | inl e ↦ rw e (ap (λ j. some (target_of n (lookup j targets) now v)) ((==_iff k id).0 e))
    | inr e ↦ rw e (lookup-next_targets now id targets vessels)
  ]

  received_new :
      (o : Option (TargetPos A)) (ts now : A)
      → ((t : TargetPos A) → o ≡ some t → equals n t.ts ts ≡ false)
      → received n o ts now ≡ now
  received_new none ts now h = refl
  received_new (some t) ts now h = rw (h t refl) refl

  received_again :
      (order : IsOrdered n) (t : TargetPos A) (now : A)
      → received n (some t) t.ts now ≡ t.received_at
  received_again order t now = rw (order.le_refl t.ts) refl

-- The vessel is in the update, with the time stamp.
unfoldable pub IsReported : {A : Type 0} → ℕ → A → Dict (Vessel A) → Type 0
IsReported {A} id ts vessels = (v : Vessel A) × (lookup id vessels ≡ some v) × (v.ts ≡ ts)

-- Every update reports the vessel with the same time stamp.
unfoldable pub RepeatsFix : {A : Type 0} → ℕ → A → List (Event A) → Type 0
RepeatsFix id ts [] = Unit
RepeatsFix id ts (updates now vessels ∷ es) = IsReported id ts vessels × RepeatsFix id ts es
RepeatsFix id ts (draws now dt selected ∷ es) = RepeatsFix id ts es

-- The vessel is on the map with a fix of the time stamp, received at the time.
unfoldable pub IsReceived : {A : Type 0} → ℕ → A → A → Live A → Type 0
IsReceived {A} id ts at s =
    (t : TargetPos A) × (lookup id s.targets ≡ some t) × (t.ts ≡ ts) × (t.received_at ≡ at)

-- The map holds no fix of the vessel with the time stamp.
unfoldable pub IsNewFix : {A : Type 0} → Number A → ℕ → A → Live A → Type 0
IsNewFix {A} n id ts s = (t : TargetPos A) → lookup id s.targets ≡ some t → equals n t.ts ts ≡ false

module _ {A : Type 0} (n : Number A) (order : IsOrdered n) (trig : Trig A) (exp : A → A) (id : ℕ)
    (ts at : A) where
  new_fix-IsReceived :
      (vessels : Dict (Vessel A)) (s : Live A)
      → IsNewFix n id ts s
      → IsReported id ts vessels
      → IsReceived id ts at (ingest n at vessels s)
  unfolding ingest IsNewFix IsReported IsReceived
  new_fix-IsReceived vessels s new (v, e, f) = (
    target_of n (lookup id s.targets) at v,
    lookup-next_targets n at id s.targets vessels
        ∙ ap (mapped (target_of n (lookup id s.targets) at)) e,
    f,
    ap (λ u. received n (lookup id s.targets) u at) f
        ∙ received_new n (lookup id s.targets) ts at new,
  )

  repeat-IsReceived :
      (now : A) (vessels : Dict (Vessel A)) (s : Live A)
      → IsReported id ts vessels
      → IsReceived id ts at s
      → IsReceived id ts at (ingest n now vessels s)
  unfolding ingest IsReported IsReceived
  repeat-IsReceived now vessels s (v, e, f) (t, g, h, k) = (
    target_of n (lookup id s.targets) now v,
    lookup-next_targets n now id s.targets vessels
        ∙ ap (mapped (target_of n (lookup id s.targets) now)) e,
    f,
    ap (λ o. received n o v.ts now) g
        ∙ ap (λ u. received n (some t) u now) (f ∙ sym h)
        ∙ received_again n order t now
        ∙ k,
  )

  run-IsReceived :
      (es : List (Event A)) (s : Live A)
      → RepeatsFix id ts es
      → IsReceived id ts at s
      → IsReceived id ts at (run n trig exp s es)
  unfolding run step draw_live RepeatsFix IsReceived
  run-IsReceived [] s r h = h
  run-IsReceived (updates now vessels ∷ es) s r h =
      run-IsReceived es (ingest n now vessels s) r.1 (repeat-IsReceived now vessels s r.0 h)
  run-IsReceived (draws now dt selected ∷ es) s r h =
      run-IsReceived es (draw_live n trig exp now dt selected s).0 r h

  -- A fix that is new to the map counts as received when the update brings it, and goes on to count
  -- as received then through any frames and any later updates that report the vessel with the same
  -- time stamp: repeated snapshots do not make an old position young again.
  pub updates-IsReceived :
      (vessels : Dict (Vessel A)) (es : List (Event A)) (s : Live A)
      → IsNewFix n id ts s
      → IsReported id ts vessels
      → RepeatsFix id ts es
      → IsReceived id ts at (run n trig exp s (updates at vessels ∷ es))
  unfolding run step
  updates-IsReceived vessels es s new told r =
      run-IsReceived es (ingest n at vessels s) r (new_fix-IsReceived vessels s new told)

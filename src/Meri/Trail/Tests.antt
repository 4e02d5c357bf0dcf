-- ===== src/Meri/Trail/Tests.antt =====
-- A vessel's trail is on screen when the selection changes and the old answer comes late.
use fintraffic.Base.{ℕ, ◌≡◌, refl, true, List, [], ◌∷◌, some}
use fintraffic.Base.Int.{ℤ, pos}
use fintraffic.Base.Number.Milli.{milli}
use fintraffic.Meri.Replay.Pose.{Fix}
use fintraffic.Meri.Trail.{
  Props, Request, Event, renders, answers, steps, step, initial, shown, load, effect, settle,
}
use fintraffic.Meri.Trail.Shown.{shown-Belongs, IsGenuine, Belongs}

-- A fix of the vessel of number `m`, which is its longitude here.
abbrev fix : ℕ → Fix ℤ
fix m = record { lng = pos m; lat = pos 0; ts = pos 0; cog = pos 0; sog = pos 0 }

abbrev selecting : ℕ → Props ℤ
selecting m = record { mmsi = some m; enabled = true; window_sec = pos 3_600_000 }

abbrev request : ℕ → ℕ → Request ℤ
request k m = record { run = k; mmsi = m; from = pos 0 }

abbrev events : List (Event ℤ)
events =
    renders (selecting 7) (pos 0)
    ∷ renders (selecting 8) (pos 0)
    ∷ answers (request 2 8) (fix 8 ∷ [])
    ∷ answers (request 1 7) (fix 7 ∷ [])
    ∷ []

late_answer_ignored : shown (steps milli (initial milli (pos 3_600_000)) events) ≡ fix 8 ∷ []
unfolding shown steps step initial load effect settle
late_answer_ignored = refl

-- Every fix is of vessel `m`.
abbrev IsOf : ℕ → List (Fix ℤ) → Type 0
IsOf m [] = Unit
IsOf m (p ∷ ps) = (p.lng ≡ pos m) × IsOf m ps

shown-Belongs_example :
    Belongs IsOf
      (steps milli (initial milli (pos 3_600_000)) events).props.mmsi
      (shown (steps milli (initial milli (pos 3_600_000)) events))
unfolding IsGenuine
shown-Belongs_example =
    shown-Belongs milli IsOf (λ m. tt) (pos 3_600_000) events
      (tt, (tt, ((refl, tt), ((refl, tt), tt))))

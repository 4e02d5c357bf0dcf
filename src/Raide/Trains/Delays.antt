-- ===== src/Raide/Trains/Delays.antt =====
-- The ring on the map and the class in the panel agree.
use fintraffic.Base.{◌≡◌, ◌↔◌, refl, Bool, true, false, arith, String, if◌then◌else◌}
use fintraffic.Base.Number.{Number}
use fintraffic.Raide.Trains.{DelaySeverity, none, ok, warn, bad, delay_class, delay_severity}

-- The class that goes with a severity, of a train that has a delay.
abbrev pub class_of : DelaySeverity → String
class_of bad = "delay-bad"
class_of warn = "delay-warn"
class_of ok = "delay-ok"
class_of none = "delay-ok"

module _ {A : Type 0} (n : Number A) where
  -- A marker carries no severity exactly when the train has no delay yet; for a train that has one,
  -- the class in the panel is the one of the marker's severity.
  pub severity-class :
      (delay_min : A) (has_delay : Bool)
      → ((delay_severity n delay_min has_delay ≡ none) ↔ (has_delay ≡ false))
        × (has_delay ≡ true
            → delay_class n delay_min ≡ class_of (delay_severity n delay_min has_delay))
  unfolding delay_severity delay_class
  severity-class delay_min false = (((λ e. refl), (λ e. refl)), (λ e. absurd (ground (arith, e))))
  severity-class delay_min true = (
    graded (n.le (n.of_ℕ 10) delay_min) (n.le (n.of_ℕ 3) delay_min),
    λ e. agree (n.le (n.of_ℕ 10) delay_min) (n.le (n.of_ℕ 3) delay_min),
  )
    where
      graded : (a b : Bool) → ((if a then bad else if b then warn else ok) ≡ none) ↔ (true ≡ false)
      graded true b = ground arith
      graded false true = ground arith
      graded false false = ground arith

      agree :
          (a b : Bool)
          → (if a then "delay-bad" else if b then "delay-warn" else "delay-ok")
            ≡ class_of (if a then bad else if b then warn else ok)
      agree true b = refl
      agree false true = refl
      agree false false = refl

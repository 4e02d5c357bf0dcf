-- ===== src/Raide/Trains/Tests.antt =====
-- A train that is five minutes late, in thousandths.
use fintraffic.Base.{◌≡◌, refl, true}
use fintraffic.Base.Int.{pos}
use fintraffic.Base.Number.Milli.{milli}
use fintraffic.Raide.Trains.{warn, delay_severity}

late : delay_severity milli (pos 5_000) true ≡ warn
unfolding delay_severity
late = refl

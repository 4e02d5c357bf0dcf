-- ===== src/Meri/Sea/Tests.antt =====
-- The sea and the wind, in thousandths.
use fintraffic.Base.{◌≡◌, refl}
use fintraffic.Base.Int.{pos}
use fintraffic.Base.Number.Milli.{milli}
use fintraffic.Meri.Sea.{douglas}

moderate : (douglas milli (pos 3_000)).label ≡ "Moderate"
unfolding douglas
moderate = refl

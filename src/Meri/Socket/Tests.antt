-- ===== src/Meri/Socket/Tests.antt =====
-- A connection that is lost and comes back, in thousandths.
use fintraffic.Base.{◌≡◌, refl, [], ◌∷◌}
use fintraffic.Base.Int.{pos}
use fintraffic.Base.Number.Milli.{milli, milli-IsOrdered, milli-IsRounded}
use fintraffic.Meri.Socket.{opens, closes, fires, unmounts, start, step, run}
use fintraffic.Meri.Socket.Alive.{IsAlive, run-start-IsAlive}

grown : (run milli (start milli) (closes ∷ fires ∷ closes ∷ [])).delay ≡ pos 2_250_000
unfolding run step start
grown = refl

reset : (run milli (start milli) (closes ∷ fires ∷ opens ∷ [])).delay ≡ pos 1_000_000
unfolding run step start
reset = refl

run-start-IsAlive_example :
    IsAlive milli milli-IsOrdered milli-IsRounded
      (run milli (start milli) (opens ∷ closes ∷ fires ∷ unmounts ∷ []))
run-start-IsAlive_example =
    run-start-IsAlive milli milli-IsOrdered milli-IsRounded (opens ∷ closes ∷ fires ∷ unmounts ∷ [])

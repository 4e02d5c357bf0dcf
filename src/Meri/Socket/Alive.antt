-- ===== src/Meri/Socket/Alive.antt =====
-- While it is mounted the hook is always on the way to a connection, and never twice.
use fintraffic.Base.{
  ◌≡◌, ◌≢◌, refl, true, false, not, List, [], ◌∷◌, Option, none, some, arith, is_some, if_cases,
}
use fintraffic.Base.Number.{Number, IsOrdered, IsRounded, minimum}
use fintraffic.Meri.Socket.{
  Connection, Event, opens, closes, fires, unmounts, disconnected, start, step, run, on_open,
  on_close, on_timer, unmount, trigger_with,
}

module _ {A : Type 0} (n : Number A) (o : IsOrdered n) (r : IsRounded n) where
  -- While mounted there is a socket or an armed reconnection, never both; the status is
  -- disconnected exactly without a socket. Once unmounted there is neither. No delay is above
  -- thirty seconds.
  pub record IsAlive (s : Connection A) : Type 0 where
    pub working : s.mounted ≡ true → (s.armed ≡ is_some s.timer) × (s.socket ≡ not s.armed)
    pub shown : s.mounted ≡ true → s.socket ≡ true → s.status ≢ disconnected
    pub hidden : s.mounted ≡ true → s.socket ≡ false → s.status ≡ disconnected
    pub quiet : s.mounted ≡ false → (s.socket ≡ false) × (s.armed ≡ false)
    pub capped : n.le s.delay (n.of_ℕ 30_000) ≡ true

  minimum-le : (a b : A) → n.le (minimum n a b) b ≡ true
  minimum-le a b = ground (arith, o.le_refl b, o.lt_not_le b a)

  start_delay : n.le (n.of_ℕ 1000) (n.of_ℕ 30_000) ≡ true
  start_delay = r.of_ℕ_mono 1000 30_000 (omega arith)

  open-IsAlive : (s : Connection A) → s.socket ≡ true → IsAlive s → IsAlive (on_open n s)
  unfolding on_open
  open-IsAlive s up a = record {
    working = a.working;
    shown = λ m h. ground arith;
    hidden = λ m h. cc;
    quiet = a.quiet;
    capped = start_delay;
  }

  close-IsAlive :
      (s : Connection A) (t : Option A)
      → s.timer ≡ t
      → s.socket ≡ true
      → IsAlive s
      → IsAlive (trigger_with n t (record s { socket = false; status = disconnected }))
  close-IsAlive s none e up a = record {
    working = λ m. (refl, refl);
    shown = λ m h. cc;
    hidden = λ m h. refl;
    quiet = λ m. absurd (ground (arith, a.quiet m));
    capped = minimum-le _ _;
  }
  close-IsAlive s (some d) e up a = record {
    working = λ m. absurd (ground (arith, a.working m));
    shown = λ m h. cc;
    hidden = λ m h. refl;
    quiet = λ m. absurd (ground (arith, a.quiet m));
    capped = a.capped;
  }

  timer-IsAlive : (s : Connection A) → s.armed ≡ true → IsAlive s → IsAlive (on_timer n s)
  unfolding on_timer
  timer-IsAlive s fired a =
      if_cases IsAlive s.socket
        (λ up. record {
          working = λ m. absurd (ground (arith, a.working m));
          shown = λ m h. absurd (ground (arith, a.working m));
          hidden = λ m h. absurd (ground (arith, a.working m));
          quiet = λ m. absurd (ground (arith, a.quiet m));
          capped = a.capped;
        })
        (λ down. record {
          working = λ m. (refl, refl);
          shown = λ m h. ground arith;
          hidden = λ m h. cc;
          quiet = λ m. absurd (ground (arith, a.quiet m));
          capped = a.capped;
        })

  step-IsAlive : (s : Connection A) (e : Event A) → IsAlive s → IsAlive (step n s e)
  unfolding step on_close unmount
  step-IsAlive s opens a = if_cases IsAlive s.socket (λ up. open-IsAlive s up a) (λ down. a)
  step-IsAlive s closes a =
      if_cases IsAlive s.socket (λ up. close-IsAlive s s.timer refl up a) (λ down. a)
  step-IsAlive s fires a = if_cases IsAlive s.armed (λ on. timer-IsAlive s on a) (λ off. a)
  step-IsAlive s unmounts a = record {
    working = λ m. cc;
    shown = λ m h. cc;
    hidden = λ m h. cc;
    quiet = λ m. (refl, refl);
    capped = a.capped;
  }

  run-IsAlive : (s : Connection A) (es : List (Event A)) → IsAlive s → IsAlive (run n s es)
  unfolding run
  run-IsAlive s [] a = a
  run-IsAlive s (e ∷ es) a = run-IsAlive (step n s e) es (step-IsAlive s e a)

  start-IsAlive : IsAlive (start n)
  unfolding start
  start-IsAlive = record {
    working = λ m. (refl, refl);
    shown = λ m h. ground arith;
    hidden = λ m h. cc;
    quiet = λ m. cc;
    capped = start_delay;
  }

  -- After any events since the first render: while it is mounted, the hook holds a socket or has a
  -- reconnection armed, never both, and the status is disconnected exactly without a socket; once
  -- unmounted it has neither; and the delay never exceeds thirty seconds.
  pub run-start-IsAlive : (es : List (Event A)) → IsAlive (run n (start n) es)
  run-start-IsAlive es = run-IsAlive (start n) es start-IsAlive

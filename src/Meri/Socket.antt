-- ===== src/Meri/Socket.antt =====
-- The connection of the live stream: hooks/useWebSocket.ts. The socket and the timers of the browser
-- appear as events; a socket has at most one handler attached, that of the connection.
pub mod Alive
mod Tests
use fintraffic.Base.{ℕ, Bool, true, false, not, List, [], ◌∷◌, Option, none, some, if◌then◌else◌}
use fintraffic.Base.Number.{Number, minimum, decimal}

pub data ConnectionStatus : Type 0 where
  connecting connected disconnected : ConnectionStatus

-- `status`, whether `socketRef` holds a socket, `reconnectTimeoutRef` (as the delay of its timer),
-- whether that timer is still to fire, `reconnectDelayRef`, and whether the component is mounted.
pub record Connection (A : Type 0) : Type 0 where
  pub status : ConnectionStatus
  pub socket : Bool
  pub timer : Option A
  pub armed : Bool
  pub delay : A
  pub mounted : Bool

pub data Event (A : Type 0) : Type 0 where
  opens closes fires unmounts : Event A

module _ {A : Type 0} (n : Number A) where
  open n use {of_ℕ, mul}

  unfoldable pub initial : Connection A
  initial = record {
    status = disconnected;
    socket = false;
    timer = none;
    armed = false;
    delay = of_ℕ 1000;
    mounted = true;
  }

  unfoldable pub connect : Connection A → Connection A
  connect s = if s.socket then s else record s { status = connecting; socket = true }

  -- `socket.onopen`.
  unfoldable pub on_open : Connection A → Connection A
  on_open s = record s { status = connected; delay = of_ℕ 1000 }

  abbrev pub trigger_with : Option A → Connection A → Connection A
  trigger_with (some delay) s = s
  trigger_with none s = record s {
    delay = minimum n (mul s.delay (decimal n 15 10)) (of_ℕ 30_000);
    timer = some s.delay;
    armed = true;
  }

  -- A reconnection that is pending already stays; else the delay grows, up to thirty seconds.
  unfoldable pub trigger_reconnect : Connection A → Connection A
  trigger_reconnect s = trigger_with s.timer s

  -- `socket.onclose`; `socket.onerror` closes the socket, which leads here.
  unfoldable pub on_close : Connection A → Connection A
  unfolding trigger_reconnect
  on_close s = trigger_reconnect (record s { socket = false; status = disconnected })

  -- The callback of the timer.
  unfoldable pub on_timer : Connection A → Connection A
  unfolding connect
  on_timer s = connect (record s { timer = none; armed = false })

  -- The cleanup of the effect: the close handler is removed and the timer cleared.
  unfoldable pub unmount : Connection A → Connection A
  unmount s = record s { socket = false; armed = false; mounted = false }

  -- A socket reports only while the hook holds it, and a timer fires only while it is armed.
  unfoldable pub step : Connection A → Event A → Connection A
  unfolding connect on_open on_close on_timer unmount
  step s opens = if s.socket then on_open s else s
  step s closes = if s.socket then on_close s else s
  step s fires = if s.armed then on_timer s else s
  step s unmounts = unmount s

  unfoldable pub run : Connection A → List (Event A) → Connection A
  run s [] = s
  run s (e ∷ es) = run (step s e) es

  -- The effect of the first render connects.
  unfoldable pub start : Connection A
  unfolding connect initial
  start = connect initial

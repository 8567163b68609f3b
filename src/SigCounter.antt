-- ===== src/SigCounter.antt =====
-- applications/sig-counter (ticker.go and main.go): a counter of seconds that signals read and
-- reset.
mod Counting
mod Tests
use performance_handbook.Base.{ℕ, ◌+◌, ◌%◌, Bool, true, false, List, [], ◌∷◌, ◌++◌, if◌then◌else◌}

-- The signals that `main` asks for
pub data Signal : Type 0 where
  sigusr1 : Signal
  sigusr2 : Signal
  sigterm : Signal
  sigint : Signal

-- A tick that `Ticker.Run` sees, or a signal that `main` receives, in the order of their atomic
-- accesses to the counter.
pub data Event : Type 0 where
  tick : Event
  signal : Signal → Event

-- The counter of the `Ticker`; what `main` has printed of it; and whether `main` has returned.
pub record Program : Type 0 where
  pub value : ℕ
  pub printed : List ℕ
  pub returned : Bool

-- 2^64
abbrev pub modulus : ℕ
modulus = 18446744073709551616

-- `NewTicker`
pub new_program : Program
new_program = record { value = 0; printed = []; returned = false }

-- The switch of `main`
pub on_signal : Signal → Program → Program
on_signal sigusr1 p = record p { printed = p.printed ++ p.value ∷ [] }
on_signal sigusr2 p = record p { value = 0 }
on_signal sigterm p = record p { returned = true }
on_signal sigint p = record p { returned = true }

-- One round of the loop of `Ticker.Run`, or of `main`
pub on_event : Event → Program → Program
unfolding on_signal
on_event tick p = record p { value = (p.value + 1) % modulus }
on_event (signal s) p = on_signal s p

pub run_events : List Event → Program → Program
unfolding on_event
run_events [] p = p
run_events (e ∷ es) p = if p.returned then p else run_events es (on_event e p)

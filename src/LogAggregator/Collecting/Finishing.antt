-- ===== src/LogAggregator/Collecting/Finishing.antt =====
-- What an interrupt does to an aggregator.
use performance_handbook.Base.{
  ℕ, ◌+◌, ◌≤◌, ◌<◌, ◌≡◌, ◌⊎◌, inl, inr, refl, ap, Bool, true, false, List, [], ◌∷◌, ◌++◌, Option,
  arith, Bytes, length, Option-cases,
}
use performance_handbook.LogAggregator.Wire.{LogEntry, Buffered}
use performance_handbook.LogAggregator.Registry.{Aggregator}
use performance_handbook.LogAggregator.Collecting.{
  Listener, Agent, sending, Collector, creating, ranging, stored, Collecting, Move, opens,
  accept_fails, scan_line, scan_end, read_datagram, send, Step, agent, accept, interrupt, created,
  collect, finish, return, Panics, send_on_closed, cannot_create, Reach, later,
}

abbrev pub collector_rank : {File Writer : Type 0} → Collector File Writer → ℕ
collector_rank creating = 3
collector_rank (ranging file) = 2
collector_rank (stored file) = 1

abbrev pub running_rank : Bool → ℕ
running_rank true = 0
running_rank false = 1

-- A bound on the steps that are left to the collector and to `Run`, when the channel is closed.
abbrev pub steps_left : {File Writer : Type 0} → Collecting File Writer → ℕ
steps_left s = length s.events + collector_rank s.collector + running_rank s.returned

module _ {File Writer : Type 0} (l : Listener) (marshal : LogEntry → Option Bytes)
    (unmarshal : Bytes → Option LogEntry) (create : Option File) (out : Buffered File Writer)
    (a : Aggregator) where
  -- The collector, or `Run`, can make a step, which brings it nearer to the end; or it panics.
  abbrev pub ComesNearer : Collecting File Writer → Type 0
  ComesNearer s =
      Panics l marshal unmarshal create out a.receiver s
      ⊎ ((t : Collecting File Writer) × Step l marshal unmarshal create out a.receiver s t
          × (steps_left t < steps_left s))

  comes_nearer :
      (s : Collecting File Writer) (c : Collector File Writer) (events : List LogEntry)
      → s.collector ≡ c
      → s.events ≡ events
      → s.returned ≡ false
      → s.closed ≡ true
      → ComesNearer s
  comes_nearer s creating events e f r shut = elim (Option-cases create) [
    | inl fails ↦ inl (cannot_create e fails)
    | inr (file, works) ↦ inr (_, created e works, omega (arith, ap collector_rank e))
  ]
  comes_nearer s (ranging file) [] e f r shut =
      inr (_, finish e f shut, omega (arith, ap collector_rank e))
  comes_nearer s (ranging file) (entry ∷ rest) e f r shut =
      inr (_, collect e f, omega (arith, ap collector_rank e, ap length f))
  comes_nearer s (stored file) events e f r shut =
      inr (_, return e, omega (arith, ap running_rank r))

  Move-farther :
      (s : Collecting File Writer) {t : Collecting File Writer} {b b' : Agent}
      → s.closed ≡ true
      → Move l marshal unmarshal create out a.receiver s b t b'
      → (steps_left t ≤ steps_left s) × (t.closed ≡ true)
  Move-farther s shut (opens starts) = (omega arith, shut)
  Move-farther s shut accept_fails = (omega arith, shut)
  Move-farther s shut scan_line = (omega arith, shut)
  Move-farther s shut scan_end = (omega arith, shut)
  Move-farther s shut (read_datagram datagram) = (omega arith, shut)
  Move-farther s shut (send not_closed room) = absurd (ground arith)

  Step-farther :
      (s : Collecting File Writer) {t : Collecting File Writer}
      → s.closed ≡ true
      → s.returned ≡ false
      → Step l marshal unmarshal create out a.receiver s t
      → (steps_left t ≤ steps_left s) × (t.closed ≡ true)
  Step-farther s shut r (agent us vs e m) = Move-farther s shut m
  Step-farther s shut r (accept us vs text e) = (omega arith, shut)
  Step-farther s shut r (interrupt not_closed) = absurd (ground arith)
  Step-farther s shut r (created e works) = (omega (arith, ap collector_rank e), shut)
  Step-farther s shut r (collect e next) =
      (omega (arith, ap collector_rank e, ap length next), shut)
  Step-farther s shut r (finish e empty closed) = (omega (arith, ap collector_rank e), shut)
  Step-farther s shut r (return e) = (omega (arith, ap running_rank r), shut)

  -- After an interrupt, until `Run` has returned: it can make a step that brings it nearer to its
  -- return, unless it panics; and no step, of whichever goroutine, takes it farther from there or
  -- opens the channel again.
  pub interrupt_ends :
      (s : Collecting File Writer)
      → s.closed ≡ true
      → s.returned ≡ false
      → ComesNearer s
        × ((t : Collecting File Writer)
            → Step l marshal unmarshal create out a.receiver s t
            → (steps_left t ≤ steps_left s) × (t.closed ≡ true))
  interrupt_ends s shut r =
      (comes_nearer s s.collector s.events refl refl r shut, λ t st. Step-farther s shut r st)

  -- If, in a state that `Run` reaches before an interrupt, a goroutine is at its send, then `Run`
  -- also reaches a state in which the program can panic.
  pub interrupt_can_panic :
      (s : Collecting File Writer) (us vs : List Agent) (entry : LogEntry) (next : Agent)
      → Reach l marshal unmarshal create out a s
      → s.returned ≡ false
      → s.closed ≡ false
      → s.agents ≡ us ++ sending entry next ∷ vs
      → (t : Collecting File Writer) × Reach l marshal unmarshal create out a t
        × Panics l marshal unmarshal create out a.receiver t
  interrupt_can_panic s us vs entry next r not_yet not_closed e =
      (_, later r not_yet (interrupt not_closed), send_on_closed us vs entry next e refl)

-- ===== src/LogAggregator/Producing/Draining.antt =====
-- After the timeout, a producer comes to its end.
use performance_handbook.Base.{ℕ, ◌+◌, ◌*◌, ◌⊎◌, Option, Bytes, length}
use performance_handbook.LogAggregator.Wire.{LogEntry}
use performance_handbook.LogAggregator.Registry.{Producer}
use performance_handbook.LogAggregator.Producing.{
  Dialer, Phase, selecting, pushing, waiting, returned, Publishing, connecting, ranging, writing,
  finished, Producing, Step, Panics,
}

abbrev pub publishing_rank : {Conn : Type 0} → Publishing Conn → ℕ
publishing_rank connecting = 3
publishing_rank (ranging conn) = 1
publishing_rank (writing conn entry) = 2
publishing_rank (finished conn) = 0

abbrev pub phase_rank : Phase → ℕ
phase_rank selecting = 3
phase_rank (pushing entry) = 2
phase_rank waiting = 1
phase_rank returned = 0

-- A bound on the steps that are left, when the channel is closed.
abbrev pub steps_left : {Conn : Type 0} → Producing Conn → ℕ
steps_left s = 2 * length s.events + publishing_rank s.publishing + phase_rank s.phase

module _ {Conn Address : Type 0} (d : Dialer Conn Address) (marshal : LogEntry → Option Bytes)
    (p : Producer) (msg : Bytes) where
  -- `Run` goes on: it makes a step or panics.
  abbrev pub GoesOn : Producing Conn → Type 0
  GoesOn s = Panics d marshal p msg s ⊎ ((t : Producing Conn) × Step d marshal p msg s t)

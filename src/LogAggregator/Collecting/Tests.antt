-- ===== src/LogAggregator/Collecting/Tests.antt =====
-- One datagram, and an interrupt before or after it is sent on.
use performance_handbook.Base.{◌+◌, ◌≤◌, ◌≡◌, refl, true, false, [], ◌∷◌, ◌++◌, none, some, Bytes}
use performance_handbook.Base.Int.{pos_part}
use performance_handbook.Base.Totals.{total, filter_map}
use performance_handbook.LogAggregator.Wire.{Buffered}
use performance_handbook.LogAggregator.Wire.Codec.{at_time, time_only, first_byte}
use performance_handbook.LogAggregator.Registry.{udp_socket_receiver, Aggregator}
use performance_handbook.LogAggregator.Collecting.{
  made, Listener, at_socket, sending, udp_receive, receive, creating, stored, Collecting,
  first_collecting, opens, read_datagram, Step, agent, Reach, begin, later,
}
use performance_handbook.LogAggregator.Collecting.Receipt.{held, received_or_held}
use performance_handbook.LogAggregator.Collecting.Finishing.{
  ComesNearer, steps_left, interrupt_ends,
}

abbrev quiet : Listener
quiet = record {
  listen = λ network address. true;
  resolve_unix_addr = λ network path. true;
  listen_unixgram = λ network path. true;
  listen_packet = λ network address. true;
  mkfifo = λ path. made;
  open_for_reading = λ path. none;
  scan = λ text. [];
}

abbrev over_udp : Aggregator
over_udp = record { receiver = udp_socket_receiver "127.0.0.1:9000" }

-- A writer whose file is what has been flushed, beside what it still holds
abbrev buffer : Buffered Bytes (Bytes × Bytes)
buffer = record {
  new_writer = λ file. (file, []);
  write_string = λ writer b. (writer.0, writer.1 ++ b);
  flush = λ writer. writer.0 ++ writer.1;
}

abbrev before_send : Collecting Bytes (Bytes × Bytes)
before_send = record {
  agents = sending (at_time 40) at_socket ∷ [];
  events = [];
  closed = false;
  collector = creating;
  returned = false;
  payloads = (40 ∷ 10 ∷ []) ∷ [];
  sent = [];
}

abbrev interrupted : Collecting Bytes (Bytes × Bytes)
interrupted = record before_send {
  agents = at_socket ∷ [];
  events = at_time 40 ∷ [];
  closed = true;
  sent = at_time 40 ∷ [];
}

abbrev over : Collecting Bytes (Bytes × Bytes)
over = record interrupted { events = []; collector = stored (40 ∷ 10 ∷ []); returned = true }

abbrev Reaches : Collecting Bytes (Bytes × Bytes) → Type 0
Reaches = Reach quiet time_only first_byte (some []) buffer over_udp

before_send-Reach : Reaches before_send
unfolding first_collecting receive udp_receive
before_send-Reach =
    later (later begin refl (agent [] [] refl (opens refl))) refl
      (agent [] [] refl (read_datagram (40 ∷ 10 ∷ [])))

received_or_held_example :
    total (λ e. pos_part e.timestamp) (filter_map first_byte before_send.payloads)
    ≡ total (λ e. pos_part e.timestamp) before_send.sent
      + total (held (λ e. pos_part e.timestamp)) before_send.agents
received_or_held_example =
    received_or_held quiet time_only first_byte (some []) buffer (λ e. pos_part e.timestamp)
      over_udp before_send-Reach

interrupt_ends_example :
    ComesNearer quiet time_only first_byte (some []) buffer over_udp interrupted
    × ((t : Collecting Bytes (Bytes × Bytes))
        → Step quiet time_only first_byte (some []) buffer over_udp.receiver interrupted t
        → (steps_left t ≤ steps_left interrupted) × (t.closed ≡ true))
interrupt_ends_example =
    interrupt_ends quiet time_only first_byte (some []) buffer over_udp interrupted refl refl

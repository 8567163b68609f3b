-- ===== src/LogAggregator/Producing/Tests.antt =====
-- One tick over a TCP connection that holds what was sent.
use mathlib.Core.List.{map}
use performance_handbook.Base.{◌≡◌, refl, true, [], ◌∷◌, ◌++◌, none, some, arith, Bytes}
use performance_handbook.Base.Int.{pos}
use performance_handbook.LogAggregator.Wire.{
  message_of_size, entry_at, produce, write, receive_stream, write_output,
}
use performance_handbook.LogAggregator.Wire.Codec.{
  time_only, first_byte, split_from, split-IsScan, one,
}
use performance_handbook.LogAggregator.Registry.{tcp_socket_publisher, Producer}
use performance_handbook.LogAggregator.Producing.{
  Dialer, connect, tcp_connect, waiting, returned, ranging, finished, Producing, first_producing,
  tick, push, timeout, dialled, take_event, wrote, see_closed, joined, Reach, begin, later,
}
use performance_handbook.LogAggregator.Producing.Arrival.{IsStream, ticks_arrive}

abbrev tape : Dialer Bytes Unit
tape = record {
  dial = λ network address. some [];
  resolve_unix_addr = λ network path. none;
  dial_unix = λ network address. none;
  open_for_writing = λ path. none;
  send = λ sent b. some (sent ++ b);
  close = λ sent. sent;
}

abbrev over_tcp : Producer
over_tcp = record { publisher = tcp_socket_publisher "127.0.0.1:9000"; message_size = pos 0 }

abbrev line : Bytes
line = 40 ∷ 10 ∷ []

abbrev timed_out : Producing Bytes
timed_out = record {
  phase = waiting;
  events = [];
  closed = true;
  publishing = ranging line;
  ticks = pos 40 ∷ [];
}

abbrev over : Producing Bytes
over = record timed_out { phase = returned; publishing = finished line }

timed_out-Reach : Reach tape time_only over_tcp [] timed_out
unfolding message_of_size entry_at first_producing connect tcp_connect write
timed_out-Reach =
    later
      (later
        (later
          (later (later (later (begin refl) (tick (pos 40) refl)) (push refl (omega arith)))
            (dialled refl refl))
          (take_event refl refl))
        (wrote refl refl))
      (timeout refl)

over-Reach : Reach tape time_only over_tcp [] over
over-Reach = later (later timed_out-Reach (see_closed refl refl refl)) (joined refl refl)

tape-IsStream : IsStream tape over_tcp.publisher
unfolding connect tcp_connect
tape-IsStream = record { opens = refl; sends = refl; closes = λ sent. refl }

ticks_arrive_example :
    (text : Bytes) × (produce (pos 0) (pos 40 ∷ []) ≡ some (map (entry_at []) (pos 40 ∷ [])))
    × (over.publishing ≡ finished text)
    × (receive_stream first_byte (split_from []) text [] ≡ map (entry_at []) (pos 40 ∷ []))
    × (write_output time_only (λ held b. held ++ b) [] (map (entry_at []) (pos 40 ∷ [])) ≡ text)
unfolding entry_at
ticks_arrive_example =
    ticks_arrive tape time_only first_byte (split_from []) over_tcp [] tape-IsStream split-IsScan
      (one 40 (omega arith), tt) over-Reach refl

-- ===== src/LogAggregator/Collecting/Receipt.antt =====
-- What becomes of the payloads that an aggregator receives.
use performance_handbook.Base.{
  ℕ, ◌+◌, ◌≡◌, ap, List, [], ◌∷◌, ◌++◌, Option, some, arith, Bytes, take,
}
use performance_handbook.Base.Totals.{total, total-append, filter_map, weight_of, total-filter_map}
use performance_handbook.LogAggregator.Wire.{LogEntry, Buffered}
use performance_handbook.LogAggregator.Registry.{
  Receiver, unix_socket_receiver, unix_datagram_socket_receiver, fifo_receiver, tcp_socket_receiver,
  udp_socket_receiver, Aggregator,
}
use performance_handbook.LogAggregator.Collecting.{
  Listener, Agent, opening, accepting, at_socket, scanning, sending, gone, unix_socket_receive,
  unix_datagram_receive, fifo_open, fifo_receive, tcp_receive, udp_receive, receive, Collecting,
  first_collecting, handle, Move, opens, accept_fails, scan_line, scan_end, read_datagram, send,
  Step, agent, accept, interrupt, created, collect, finish, return, Reach, begin, later,
}

-- The weight of the entries that a goroutine holds at its send.
abbrev pub held : (LogEntry → ℕ) → Agent → ℕ
held w opening = 0
held w accepting = 0
held w at_socket = 0
held w (scanning lines) = 0
held w (sending entry next) = w entry + held w next
held w gone = 0

receive-held :
    (l : Listener) (r : Receiver) (w : LogEntry → ℕ) {a : Agent}
    → receive l r ≡ some a
    → held w a ≡ 0
unfolding receive unix_socket_receive unix_datagram_receive fifo_open fifo_receive tcp_receive
    udp_receive
receive-held l (unix_socket_receiver path) w e = ground arith
receive-held l (unix_datagram_socket_receiver path) w e = ground arith
receive-held l (fifo_receiver path) w e = ground arith
receive-held l (tcp_socket_receiver address) w e = ground arith
receive-held l (udp_socket_receiver address) w e = ground arith

handle-held :
    (unmarshal : Bytes → Option LogEntry) (payload : Bytes) (next : Agent) (w : LogEntry → ℕ)
    → held w (handle unmarshal payload next) ≡ weight_of w (unmarshal payload) + held w next
handle-held unmarshal payload next w = ground arith

-- One more payload.
decoded_more :
    (unmarshal : Bytes → Option LogEntry) (payloads : List Bytes) (payload : Bytes)
    (w : LogEntry → ℕ)
    → total w (filter_map unmarshal (payloads ++ payload ∷ []))
      ≡ total w (filter_map unmarshal payloads) + weight_of w (unmarshal payload)
decoded_more unmarshal payloads payload w = omega (
  arith,
  total-filter_map w unmarshal (payloads ++ payload ∷ []),
  total-filter_map w unmarshal payloads,
  total-append (λ x. weight_of w (unmarshal x)) payloads (payload ∷ []),
)

module _ {File Writer : Type 0} (l : Listener) (marshal : LogEntry → Option Bytes)
    (unmarshal : Bytes → Option LogEntry) (create : Option File) (out : Buffered File Writer)
    (w : LogEntry → ℕ) where
  -- The entries of the payloads have been sent or are held.
  abbrev Weighed : Collecting File Writer → Type 0
  Weighed s = total w (filter_map unmarshal s.payloads) ≡ total w s.sent + total (held w) s.agents

  around :
      (s : Collecting File Writer) (us vs : List Agent) (a : Agent)
      → s.agents ≡ us ++ a ∷ vs
      → Weighed s
      → total w (filter_map unmarshal s.payloads)
        ≡ total w s.sent + total (held w) us + held w a + total (held w) vs
  around s us vs a e h = omega (arith, h, ap (total (held w)) e, total-append (held w) us (a ∷ vs))

  Move-Weighed :
      (r : Receiver) (s : Collecting File Writer) (us vs : List Agent) {t : Collecting File Writer}
      {a b : Agent}
      → s.agents ≡ us ++ a ∷ vs
      → Move l marshal unmarshal create out r s a t b
      → Weighed s
      → Weighed (record t { agents = us ++ b ∷ vs })
  Move-Weighed r s us vs e (opens {a} starts) h = omega (
    arith,
    around s us vs opening e h,
    receive-held l r w starts,
    total-append (held w) us (a ∷ vs),
  )
  Move-Weighed r s us vs e accept_fails h =
      omega (arith, around s us vs accepting e h, total-append (held w) us (accepting ∷ vs))
  Move-Weighed r s us vs e (scan_line {line} {lines}) h = omega (
    arith,
    around s us vs (scanning (line ∷ lines)) e h,
    decoded_more unmarshal s.payloads line w,
    handle-held unmarshal line (scanning lines) w,
    total-append (held w) us (handle unmarshal line (scanning lines) ∷ vs),
  )
  Move-Weighed r s us vs e scan_end h =
      omega (arith, around s us vs (scanning []) e h, total-append (held w) us (gone ∷ vs))
  Move-Weighed r s us vs e (read_datagram datagram) h = omega (
    arith,
    around s us vs at_socket e h,
    decoded_more unmarshal s.payloads (take 8192 datagram) w,
    handle-held unmarshal (take 8192 datagram) at_socket w,
    total-append (held w) us (handle unmarshal (take 8192 datagram) at_socket ∷ vs),
  )
  Move-Weighed r s us vs e (send {entry} {next} not_closed room) h = omega (
    arith,
    around s us vs (sending entry next) e h,
    total-append w s.sent (entry ∷ []),
    total-append (held w) us (next ∷ vs),
  )

  Step-Weighed :
      (r : Receiver) {s t : Collecting File Writer}
      → Step l marshal unmarshal create out r s t
      → Weighed s
      → Weighed t
  Step-Weighed r {s} (agent us vs e m) h = Move-Weighed r s us vs e m h
  Step-Weighed r {s} (accept us vs text e) h = omega (
    arith,
    around s us vs accepting e h,
    total-append (held w) us (accepting ∷ scanning (l.scan text) ∷ vs),
  )
  Step-Weighed r (interrupt e) h = h
  Step-Weighed r (created e opened) h = h
  Step-Weighed r (collect e next) h = h
  Step-Weighed r (finish e empty shut) h = h
  Step-Weighed r (return e) h = h

  -- In any state that `Run` reaches: however entries are weighed, those of the payloads that were
  -- received, as far as they can be decoded, are those that were sent on the channel and those that
  -- a goroutine holds at its send.
  pub received_or_held :
      (a : Aggregator) {s : Collecting File Writer}
      → Reach l marshal unmarshal create out a s
      → total w (filter_map unmarshal s.payloads) ≡ total w s.sent + total (held w) s.agents
  unfolding first_collecting
  received_or_held a begin = omega arith
  received_or_held a (later r not_yet st) = Step-Weighed a.receiver st (received_or_held a r)

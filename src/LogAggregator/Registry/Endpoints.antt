-- ===== src/LogAggregator/Registry/Endpoints.antt =====
-- A producer and an aggregator of one name are the two ends of one channel.
use Prim.Native.String.{String}
use text.Mathlib.Text.{◌==◌ as str_eq}
use performance_handbook.Base.{
  ◌≡◌, refl, subst, ◌⊎◌, inl, inr, List, [], ◌∷◌, none, some, arith, Option-cases, Bool-cases,
}
use performance_handbook.Base.Int.{ℤ}
use performance_handbook.LogAggregator.Registry.{
  Publisher, unix_socket_publisher, unix_datagram_socket_publisher, fifo_publisher,
  tcp_socket_publisher, udp_socket_publisher, Receiver, unix_socket_receiver,
  unix_datagram_socket_receiver, fifo_receiver, tcp_socket_receiver, udp_socket_receiver, Producer,
  Aggregator, Ipc, ipc_types, get_ipc, get_aggregator, get_producer,
}

-- The two dial and listen with the same protocol at the same address.
pub data SameEnd : Publisher → Receiver → Type 0 where
  unix_socket : {path : String} → SameEnd (unix_socket_publisher path) (unix_socket_receiver path)
  unix_datagram :
      {path : String}
      → SameEnd (unix_datagram_socket_publisher path) (unix_datagram_socket_receiver path)
  fifo : {path : String} → SameEnd (fifo_publisher path) (fifo_receiver path)
  tcp_socket :
      {address : String} → SameEnd (tcp_socket_publisher address) (tcp_socket_receiver address)
  udp_socket :
      {address : String} → SameEnd (udp_socket_publisher address) (udp_socket_receiver address)

abbrev pub Matched : List (String × Ipc) → Type 0
Matched [] = Unit
Matched ((name, ipc) ∷ types) =
    SameEnd ipc.producer.publisher ipc.aggregator.receiver × Matched types

ipc_types-Matched : Matched ipc_types
unfolding ipc_types
ipc_types-Matched = (unix_socket, (tcp_socket, (unix_datagram, (udp_socket, (fifo, tt)))))

get_ipc-SameEnd :
    (types : List (String × Ipc)) (name : String) (ipc : Ipc)
    → Matched types
    → get_ipc types name ≡ some ipc
    → SameEnd ipc.producer.publisher ipc.aggregator.receiver
unfolding get_ipc
get_ipc-SameEnd [] name ipc h e = ground arith
get_ipc-SameEnd ((other, found) ∷ types) name ipc h e = elim (Bool-cases (str_eq other name)) [
  | inl same ↦
      let this : found ≡ ipc = ground arith in
      subst (λ (z : Ipc). SameEnd z.producer.publisher z.aggregator.receiver) this h.0
  | inr apart ↦ get_ipc-SameEnd types name ipc h.1 (ground arith)
]

-- Any name is known to both or to neither of `GetProducer` and `GetAggregator`; if it is known,
-- then the producer's publisher and the aggregator's receiver use one protocol and one address, and
-- the producer has the size asked for.
pub ends_meet :
    (name : String) (size : ℤ)
    → (((get_producer ipc_types name size).0 ≡ none) × (get_aggregator ipc_types name ≡ none))
      ⊎ ((p : Producer) × (a : Aggregator) × ((get_producer ipc_types name size).0 ≡ some p)
          × (get_aggregator ipc_types name ≡ some a)
          × SameEnd p.publisher a.receiver
          × (p.message_size ≡ size))
unfolding get_producer get_aggregator
ends_meet name size = elim (Option-cases (get_ipc ipc_types name)) [
  | inl missing ↦ inl (rw (missing, get_producer) refl, rw missing refl)
  | inr (ipc, found) ↦ inr (
    record ipc.producer { message_size = size },
    ipc.aggregator,
    rw (found, get_producer) refl,
    rw found refl,
    get_ipc-SameEnd ipc_types name ipc ipc_types-Matched found,
    refl,
  )
]

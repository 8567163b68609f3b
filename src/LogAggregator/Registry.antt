-- ===== src/LogAggregator/Registry.antt =====
-- pkg/ipc/ipc_repo.go, and the constructors of pkg/ipc/producer.go, pkg/ipc/aggregator.go,
-- pkg/publisher/publisher.go and pkg/receiver/receiver.go: the pairs of a producer and an
-- aggregator, by name.
pub mod Endpoints
use Prim.Native.String.{String}
use text.Mathlib.Text.{◌==◌ as str_eq}
use performance_handbook.Base.{List, [], ◌∷◌, Option, none, some, ◌>>=◌, if◌then◌else◌}
use performance_handbook.Base.Int.{ℤ, pos}

-- `Publisher`, with its implementations
pub data Publisher : Type 0 where
  unix_socket_publisher : String → Publisher
  unix_datagram_socket_publisher : String → Publisher
  fifo_publisher : String → Publisher
  tcp_socket_publisher : String → Publisher
  udp_socket_publisher : String → Publisher

-- `Receiver`, with its implementations
pub data Receiver : Type 0 where
  unix_socket_receiver : String → Receiver
  unix_datagram_socket_receiver : String → Receiver
  fifo_receiver : String → Receiver
  tcp_socket_receiver : String → Receiver
  udp_socket_receiver : String → Receiver

pub record Producer : Type 0 where
  pub publisher : Publisher
  pub message_size : ℤ

pub record Aggregator : Type 0 where
  pub receiver : Receiver

-- `IPC`: its pointers are never nil.
pub record Ipc : Type 0 where
  pub producer : Producer
  pub aggregator : Aggregator

abbrev pub socket_path : String
socket_path = "/tmp/log.sock"

abbrev pub network_address : String
network_address = "127.0.0.1:9000"

abbrev pub fifo_path : String
fifo_path = "/tmp/log_fifo"

abbrev pub default_message_size : ℤ
default_message_size = pos 100

-- An entry of `ipcTypes`
abbrev pub entry : Publisher → Receiver → Ipc
entry publisher receiver = record {
  producer = record { publisher = publisher; message_size = default_message_size };
  aggregator = record { receiver = receiver };
}

-- `ipcTypes`, as it is at the start
pub ipc_types : List (String × Ipc)
ipc_types =
    ("unixsock", entry (unix_socket_publisher socket_path) (unix_socket_receiver socket_path))
    ∷ ("tcp", entry (tcp_socket_publisher network_address) (tcp_socket_receiver network_address))
    ∷ (
      "unixgram",
      entry (unix_datagram_socket_publisher socket_path)
          (unix_datagram_socket_receiver socket_path),
    )
    ∷ ("udp", entry (udp_socket_publisher network_address) (udp_socket_receiver network_address))
    ∷ ("fifo", entry (fifo_publisher fifo_path) (fifo_receiver fifo_path))
    ∷ []

-- `getIPC`
pub get_ipc : List (String × Ipc) → String → Option Ipc
get_ipc [] ipc_type = none
get_ipc ((name, ipc) ∷ types) ipc_type =
    if str_eq name ipc_type then some ipc else get_ipc types ipc_type

-- The assignment through the pointer that the entry of `ipc_type` holds
pub set_message_size : List (String × Ipc) → String → ℤ → List (String × Ipc)
set_message_size [] ipc_type size = []
set_message_size ((name, ipc) ∷ types) ipc_type size =
    if str_eq name ipc_type
    then (name, record ipc { producer = record ipc.producer { message_size = size } }) ∷ types
    else (name, ipc) ∷ set_message_size types ipc_type size

-- `GetAggregator`
pub get_aggregator : List (String × Ipc) → String → Option Aggregator
unfolding get_ipc
get_aggregator types ipc_type = do ipc ← get_ipc types ipc_type; some ipc.aggregator

-- `GetProducer`, with the types behind the call
pub get_producer : List (String × Ipc) → String → ℤ → Option Producer × List (String × Ipc)
unfolding get_ipc set_message_size
get_producer types ipc_type size = elim (get_ipc types ipc_type) [
  | none ↦ (none, types)
  | some ipc ↦
      (some (record ipc.producer { message_size = size }), set_message_size types ipc_type size)
]

-- ===== src/LogAggregator/Producing.antt =====
-- pkg/publisher/publisher.go, `Publish` of the five publishers, and pkg/ipc/producer.go,
-- `Producer.Run`: the goroutine that sends an entry at each tick and the one that publishes, with
-- the channel between them, as a transition system.
pub mod Delivery
pub mod Draining
pub mod Arrival
mod Tests
use Prim.Native.String.{String}
use performance_handbook.Base.{
  ℕ, ◌<◌, ◌≡◌, Bool, true, false, List, [], ◌∷◌, ◌++◌, Option, none, some, Bytes, length, ◌>>=◌,
}
use performance_handbook.Base.Int.{ℤ}
use performance_handbook.LogAggregator.Wire.{LogEntry, message_of_size, entry_at, write}
use performance_handbook.LogAggregator.Registry.{
  Publisher, unix_socket_publisher, unix_datagram_socket_publisher, fifo_publisher,
  tcp_socket_publisher, udp_socket_publisher, Producer,
}

abbrev pub producer_buffer_size : ℕ
producer_buffer_size = 100

-- What the operating system answers, where none is an error.
pub record Dialer (Conn Address : Type 0) : Type 0 where
  pub dial : String → String → Option Conn
  pub resolve_unix_addr : String → String → Option Address
  pub dial_unix : String → Address → Option Conn
  pub open_for_writing : String → Option Conn
  pub send : Conn → Bytes → Option Conn
  pub close : Conn → Conn

module _ {Conn Address : Type 0} (d : Dialer Conn Address) where
  -- How each publisher opens its connection: none is a panic, or `log.Fatal` of the FIFO.
  pub unix_socket_connect : String → Option Conn
  unix_socket_connect path = d.dial "unix" path

  pub unix_datagram_connect : String → Option Conn
  unix_datagram_connect path = do
    raddr ← d.resolve_unix_addr "unixgram" path
    d.dial_unix "unixgram" raddr

  pub fifo_connect : String → Option Conn
  fifo_connect path = d.open_for_writing path

  pub tcp_connect : String → Option Conn
  tcp_connect address = d.dial "tcp" address

  pub udp_connect : String → Option Conn
  udp_connect address = d.dial "udp" address

  unfoldable pub connect : Publisher → Option Conn
  connect (unix_socket_publisher path) = unix_socket_connect path
  connect (unix_datagram_socket_publisher path) = unix_datagram_connect path
  connect (fifo_publisher path) = fifo_connect path
  connect (tcp_socket_publisher address) = tcp_connect address
  connect (udp_socket_publisher address) = udp_connect address

-- Where the goroutine of `Run` stands.
pub data Phase : Type 0 where
  selecting : Phase
  pushing : LogEntry → Phase  -- at `events <- entry`
  waiting : Phase  -- at `wg.Wait`, behind `close(events)`
  returned : Phase

-- Where the goroutine of `Publish` stands, with its connection.
pub data Publishing (Conn : Type 0) : Type 0 where
  connecting : Publishing Conn
  ranging : Conn → Publishing Conn  -- at the receive of `range events`
  writing : Conn → LogEntry → Publishing Conn
  finished : Conn → Publishing Conn  -- behind `conn.Close` and `wg.Done`

-- `ticks` are the times at which an entry was made.
pub record Producing (Conn : Type 0) : Type 0 where
  pub phase : Phase
  pub events : List LogEntry
  pub closed : Bool
  pub publishing : Publishing Conn
  pub ticks : List ℤ

unfoldable pub first_producing : {Conn : Type 0} → Producing Conn
first_producing = record {
  phase = selecting;
  events = [];
  closed = false;
  publishing = connecting;
  ticks = [];
}

module _ {Conn Address : Type 0} (d : Dialer Conn Address) (marshal : LogEntry → Option Bytes) where
  -- `Publish`, for all that comes through its channel until that is closed
  unfoldable pub publish : Publisher → List LogEntry → Option Conn
  publish p entries = do
    conn ← connect d p
    conn' ← write marshal d.send conn entries
    some (d.close conn')

  -- A round of the loop in `write`.
  abbrev pub write_one : Conn → LogEntry → Option Conn
  write_one conn entry = write marshal d.send conn (entry ∷ [])

  module _ (p : Producer) (msg : Bytes) where
    -- One step of one of the two goroutines; `msg` is what `MessageOfSize` has returned.
    pub data Step (s : Producing Conn) : Producing Conn → Type 0 where
      tick :
          (t : ℤ)
          → s.phase ≡ selecting
          → Step s (record s { phase = pushing (entry_at msg t); ticks = s.ticks ++ t ∷ [] })
      push :
          {entry : LogEntry}
          → s.phase ≡ pushing entry
          → length s.events < producer_buffer_size
          → Step s (record s { phase = selecting; events = s.events ++ entry ∷ [] })
      timeout : s.phase ≡ selecting → Step s (record s { phase = waiting; closed = true })
      dialled :
          {conn : Conn}
          → s.publishing ≡ connecting
          → connect d p.publisher ≡ some conn
          → Step s (record s { publishing = ranging conn })
      take_event :
          {conn : Conn} {entry : LogEntry} {rest : List LogEntry}
          → s.publishing ≡ ranging conn
          → s.events ≡ entry ∷ rest
          → Step s (record s { publishing = writing conn entry; events = rest })
      wrote :
          {conn conn' : Conn} {entry : LogEntry}
          → s.publishing ≡ writing conn entry
          → write_one conn entry ≡ some conn'
          → Step s (record s { publishing = ranging conn' })
      see_closed :
          {conn : Conn}
          → s.publishing ≡ ranging conn
          → s.events ≡ []
          → s.closed ≡ true
          → Step s (record s { publishing = finished (d.close conn) })
      joined :
          {conn : Conn}
          → s.phase ≡ waiting
          → s.publishing ≡ finished conn
          → Step s (record s { phase = returned })

    -- The panics, which end the program.
    pub data Panics (s : Producing Conn) : Type 0 where
      cannot_connect : s.publishing ≡ connecting → connect d p.publisher ≡ none → Panics s
      cannot_write :
          {conn : Conn} {entry : LogEntry}
          → s.publishing ≡ writing conn entry
          → write_one conn entry ≡ none
          → Panics s

    -- The states that `Run` can reach.
    pub data Reach : Producing Conn → Type 0 where
      begin : message_of_size p.message_size ≡ some msg → Reach first_producing
      later : {s t : Producing Conn} → Reach s → Step s t → Reach t

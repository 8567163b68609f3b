-- ===== src/LogAggregator/Collecting.antt =====
-- pkg/receiver/receiver.go, `Receive` of the five receivers, and pkg/ipc/aggregator.go,
-- `Aggregator.Run`: the goroutines that receive, the one that writes the file and the one that
-- closes the channel between them at an interrupt, as a transition system.
pub mod Storage
pub mod Receipt
pub mod Finishing
mod Tests
use Prim.Native.String.{String}
use performance_handbook.Base.{
  ℕ, ◌<◌, ◌≡◌, Bool, true, false, List, [], ◌∷◌, ◌++◌, Option, none, some, Bytes, length, take,
  if◌then◌else◌,
}
use performance_handbook.LogAggregator.Wire.{LogEntry, Buffered, write_output}
use performance_handbook.LogAggregator.Registry.{
  Receiver, unix_socket_receiver, unix_datagram_socket_receiver, fifo_receiver, tcp_socket_receiver,
  udp_socket_receiver, Aggregator,
}

abbrev pub aggregator_buffer_size : ℕ
aggregator_buffer_size = 100

pub data FifoResult : Type 0 where
  made exists failed : FifoResult

-- What the operating system answers; false and none are errors. `open_for_reading` gives all that is
-- written to the FIFO, and `scan` the lines of a `bufio.Scanner`.
pub record Listener : Type 0 where
  pub listen : String → String → Bool
  pub resolve_unix_addr : String → String → Bool
  pub listen_unixgram : String → String → Bool
  pub listen_packet : String → String → Bool
  pub mkfifo : String → FifoResult
  pub open_for_reading : String → Option Bytes
  pub scan : Bytes → List Bytes

-- Where a goroutine stands that receives.
pub data Agent : Type 0 where
  opening : Agent  -- at the start of `Receive`
  accepting : Agent  -- at `Accept`
  at_socket : Agent  -- at `ReadFrom`
  scanning : List Bytes → Agent  -- at `Scan`, with the lines to come
  sending : LogEntry → Agent → Agent  -- at `events <- logEntry`, and where it stands then
  gone : Agent

module _ (l : Listener) where
  -- How each receiver starts: none is an error that it returns, or `log.Fatal`.
  unfoldable pub unix_socket_receive : String → Option Agent
  unix_socket_receive path = if l.listen "unix" path then some accepting else none

  unfoldable pub unix_datagram_receive : String → Option Agent
  unix_datagram_receive path =
      if l.resolve_unix_addr "unixgram" path
      then (if l.listen_unixgram "unixgram" path then some at_socket else none)
      else none

  unfoldable pub fifo_open : String → Option Agent
  fifo_open path = elim (l.open_for_reading path) [
    | none ↦ none
    | some text ↦ some (scanning (l.scan text))
  ]

  unfoldable pub fifo_receive : String → Option Agent
  fifo_receive path = elim (l.mkfifo path) [
    | made ↦ fifo_open path
    | exists ↦ fifo_open path
    | failed ↦ none
  ]

  unfoldable pub tcp_receive : String → Option Agent
  tcp_receive address = if l.listen "tcp" address then some accepting else none

  unfoldable pub udp_receive : String → Option Agent
  udp_receive address = if l.listen_packet "udp" address then some at_socket else none

  unfoldable pub receive : Receiver → Option Agent
  receive (unix_socket_receiver path) = unix_socket_receive path
  receive (unix_datagram_socket_receiver path) = unix_datagram_receive path
  receive (fifo_receiver path) = fifo_receive path
  receive (tcp_socket_receiver address) = tcp_receive address
  receive (udp_socket_receiver address) = udp_receive address

-- `unmarshalAndWrite`, up to its send
abbrev pub handle : (Bytes → Option LogEntry) → Bytes → Agent → Agent
handle unmarshal payload next = elim (unmarshal payload) [
  | none ↦ next
  | some entry ↦ sending entry next
]

-- Where the goroutine of `launchFileOutputCollector` stands, with its `bufio.Writer`, or the file.
pub data Collector (File Writer : Type 0) : Type 0 where
  creating : Collector File Writer
  ranging : Writer → Collector File Writer
  stored : File → Collector File Writer  -- behind `close(done)`

-- `payloads` are those that were given to `unmarshalAndWrite`, and `sent` is what was sent on the
-- channel, in order.
pub record Collecting (File Writer : Type 0) : Type 0 where
  pub agents : List Agent
  pub events : List LogEntry
  pub closed : Bool
  pub collector : Collector File Writer
  pub returned : Bool
  pub payloads : List Bytes
  pub sent : List LogEntry

unfoldable pub first_collecting : {File Writer : Type 0} → Collecting File Writer
first_collecting = record {
  agents = opening ∷ [];
  events = [];
  closed = false;
  collector = creating;
  returned = false;
  payloads = [];
  sent = [];
}

-- `create` is `os.Create` of the file, and `out` what its `bufio.Writer` does.
module _ {File Writer : Type 0} (l : Listener) (marshal : LogEntry → Option Bytes)
    (unmarshal : Bytes → Option LogEntry) (create : Option File) (out : Buffered File Writer) where
  -- One step of a goroutine that receives; the agents in the new state are set by `Step`.
  pub data Move (r : Receiver) (s : Collecting File Writer)
      : Agent → Collecting File Writer → Agent → Type 0 where
    opens : {a : Agent} → receive l r ≡ some a → Move r s opening s a
    accept_fails : Move r s accepting s accepting
    scan_line :
        {line : Bytes} {lines : List Bytes}
        → Move r s
            (scanning (line ∷ lines))
            (record s { payloads = s.payloads ++ line ∷ [] })
            (handle unmarshal line (scanning lines))
    scan_end : Move r s (scanning []) s gone
    read_datagram :
        (datagram : Bytes)
        → Move r s at_socket
            (record s { payloads = s.payloads ++ take 8192 datagram ∷ [] })
            (handle unmarshal (take 8192 datagram) at_socket)
    send :
        {entry : LogEntry} {next : Agent}
        → s.closed ≡ false
        → length s.events < aggregator_buffer_size
        → Move r s
            (sending entry next)
            (record s { events = s.events ++ entry ∷ []; sent = s.sent ++ entry ∷ [] })
            next

  pub data Step (r : Receiver) (s : Collecting File Writer) : Collecting File Writer → Type 0 where
    agent :
        (us vs : List Agent) {a b : Agent} {t : Collecting File Writer}
        → s.agents ≡ us ++ a ∷ vs
        → Move r s a t b
        → Step r s (record t { agents = us ++ b ∷ vs })
    -- a connection, with all that comes over it
    accept :
        (us vs : List Agent) (text : Bytes)
        → s.agents ≡ us ++ accepting ∷ vs
        → Step r s (record s { agents = us ++ accepting ∷ scanning (l.scan text) ∷ vs })
    interrupt : s.closed ≡ false → Step r s (record s { closed = true })
    created :
        {file : File}
        → s.collector ≡ creating
        → create ≡ some file
        → Step r s (record s { collector = ranging (out.new_writer file) })
    collect :
        {writer : Writer} {entry : LogEntry} {rest : List LogEntry}
        → s.collector ≡ ranging writer
        → s.events ≡ entry ∷ rest
        → Step r s (record s {
          collector = ranging (write_output marshal out.write_string writer (entry ∷ []));
          events = rest;
        })
    -- the deferred `Flush` and `Close`, and `close(done)`
    finish :
        {writer : Writer}
        → s.collector ≡ ranging writer
        → s.events ≡ []
        → s.closed ≡ true
        → Step r s (record s { collector = stored (out.flush writer) })
    return : {file : File} → s.collector ≡ stored file → Step r s (record s { returned = true })

  -- The panics, which end the program.
  pub data Panics (r : Receiver) (s : Collecting File Writer) : Type 0 where
    cannot_open :
        (us vs : List Agent) → s.agents ≡ us ++ opening ∷ vs → receive l r ≡ none → Panics r s
    read_fails : (us vs : List Agent) → s.agents ≡ us ++ at_socket ∷ vs → Panics r s
    scan_fails :
        (us vs : List Agent) (path : String)
        → s.agents ≡ us ++ scanning [] ∷ vs
        → r ≡ fifo_receiver path
        → Panics r s
    send_on_closed :
        (us vs : List Agent) (entry : LogEntry) (next : Agent)
        → s.agents ≡ us ++ sending entry next ∷ vs
        → s.closed ≡ true
        → Panics r s
    cannot_create : s.collector ≡ creating → create ≡ none → Panics r s

  -- The states that `Run` can reach; the program ends when it returns.
  pub data Reach (a : Aggregator) : Collecting File Writer → Type 0 where
    begin : Reach a first_collecting
    later :
        {s t : Collecting File Writer}
        → Reach a s
        → s.returned ≡ false
        → Step a.receiver s t
        → Reach a t

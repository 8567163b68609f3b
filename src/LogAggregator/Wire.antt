-- ===== src/LogAggregator/Wire.antt =====
-- pkg/model/model.go, pkg/publisher/publisher.go, pkg/receiver/receiver.go and
-- pkg/output/output.go, with the message and the entries of pkg/ipc/producer.go. A channel is the
-- list of what is sent on it.
pub mod RoundTrip
pub mod Message
pub mod Codec
mod Tests
use Prim.Native.String.{String}
use mathlib.Core.List.{map}
use performance_handbook.Base.{
  ℕ, zero, suc, ◌+◌, ◌%◌, List, [], ◌∷◌, ◌++◌, Option, none, some, Bytes, take, ◌>>=◌,
  if◌then◌else◌,
}
use performance_handbook.Base.Int.{ℤ, pos, pos_part, ltb_ℤ}

-- `LogEntry`
pub record LogEntry : Type 0 where
  pub source : String
  pub timestamp : ℤ
  pub level : String
  pub message : Bytes

abbrev pub new_line : ℕ
new_line = 10

-- The loop of `MessageOfSize`, for `rounds` more bytes
pub message_from : ℕ → ℕ → Bytes
message_from i zero = []
message_from i (suc rounds) = (65 + i % 26) ∷ message_from (i + 1) rounds

-- `MessageOfSize`; `none` is the panic of `make` for a negative size.
unfoldable pub message_of_size : ℤ → Option Bytes
unfolding message_from
message_of_size size = if ltb_ℤ size (pos 0) then none else some (message_from 0 (pos_part size))

-- The entry that `Producer.Run` sends at a tick
unfoldable pub entry_at : Bytes → ℤ → LogEntry
entry_at msg unix_time = record {
  source = "producer";
  timestamp = unix_time;
  level = "INFO";
  message = msg;
}

-- What `Producer.Run` sends to its publisher, for the times of the ticks before the timeout; `none`
-- is a panic.
unfoldable pub produce : ℤ → List ℤ → Option (List LogEntry)
unfolding message_of_size entry_at
produce message_size ticks = do msg ← message_of_size message_size; some (map (entry_at msg) ticks)

-- `bufio.Writer` on a file: what `NewWriter`, `WriteString` and `Flush` make of the writer and of the
-- file, whether or not they report an error.
pub record Buffered (File Writer : Type 0) : Type 0 where
  pub new_writer : File → Writer
  pub write_string : Writer → Bytes → Writer
  pub flush : Writer → File

-- `marshal` is `json.Marshal`; none is an error.
module _ (marshal : LogEntry → Option Bytes) where
  -- `write` of the publishers, where `send` is `Write` of the connection and none is a panic.
  unfoldable pub write {ℓ} :
      {Conn : Type ℓ} → (Conn → Bytes → Option Conn) → Conn → List LogEntry → Option Conn
  write send conn [] = some conn
  write send conn (entry ∷ entries) = do
    b ← marshal entry
    conn' ← send conn (b ++ new_line ∷ [])
    write send conn' entries

  -- The loop of `FileOutput.Write`; an entry that cannot be encoded is left out. `put` is what
  -- `WriteString` does to the writer, whether or not it reports an error.
  unfoldable pub write_output {ℓ} :
      {Writer : Type ℓ} → (Writer → Bytes → Writer) → Writer → List LogEntry → Writer
  write_output put writer [] = writer
  write_output put writer (event ∷ events) = elim (marshal event) [
    | none ↦ write_output put writer events
    | some b ↦ write_output put (put writer (b ++ new_line ∷ [])) events
  ]

  -- `FileOutput.Write` on the file that it has made: the entries go through a `bufio.Writer`, and
  -- the deferred `Flush` comes last.
  unfoldable pub file_output :
      {File Writer : Type 0} → Buffered File Writer → File → List LogEntry → File
  file_output out file events =
      out.flush (write_output out.write_string (out.new_writer file) events)

-- `unmarshal` is `json.Unmarshal`; none is an error.
module _ (unmarshal : Bytes → Option LogEntry) where
  -- `unmarshalAndWrite`
  pub unmarshal_and_write : Bytes → List LogEntry → List LogEntry
  unmarshal_and_write payload events = elim (unmarshal payload) [
    | none ↦ events
    | some entry ↦ events ++ entry ∷ []
  ]

  -- The loops of the receivers: one payload after the other
  pub receive_all : List Bytes → List LogEntry → List LogEntry
  unfolding unmarshal_and_write
  receive_all [] events = events
  receive_all (payload ∷ payloads) events =
      receive_all payloads (unmarshal_and_write payload events)

  -- A connection of `handleConnections`, and `FIFOReceiver.Receive`: `scan` are the lines of a
  -- `bufio.Scanner`.
  pub receive_stream : (Bytes → List Bytes) → Bytes → List LogEntry → List LogEntry
  unfolding receive_all
  receive_stream scan text events = receive_all (scan text) events

  -- The datagram receivers: what does not fit into the buffer of 8192 bytes is lost.
  pub receive_datagrams : List Bytes → List LogEntry → List LogEntry
  unfolding receive_all
  receive_datagrams datagrams events = receive_all (map (take 8192) datagrams) events

-- ===== src/LogAggregator/Producing/Arrival.antt =====
-- From the ticks of a producer to the file of an aggregator.
use mathlib.Core.List.{map}
use performance_handbook.Base.{arith, ◌≡◌, refl, ap, ◌∙◌, List, [], ◌++◌, Option, some, Bytes, All}
use performance_handbook.LogAggregator.Wire.{
  LogEntry, entry_at, write, produce, receive_stream, write_output,
}
use performance_handbook.LogAggregator.Wire.RoundTrip.{IsScan, Encodable, stream_round_trip}
use performance_handbook.LogAggregator.Registry.{Publisher, Producer}
use performance_handbook.LogAggregator.Producing.{
  Dialer, connect, returned, finished, Producing, publish, Reach,
}
use performance_handbook.LogAggregator.Producing.Delivery.{returned_published}

-- A connection that is a stream: it starts empty, takes all that is written, and keeps it when
-- closed.
pub record IsStream {Address : Type 0} (d : Dialer Bytes Address) (p : Publisher) : Type 0 where
  pub opens : connect d p ≡ some []
  pub sends : d.send ≡ (λ sent b. some (sent ++ b))
  pub closes : (sent : Bytes) → d.close sent ≡ sent

module _ {Address : Type 0} (d : Dialer Bytes Address) (marshal : LogEntry → Option Bytes)
    (unmarshal : Bytes → Option LogEntry) where
  stream_published :
      (p : Publisher) (entries : List LogEntry) {text : Bytes}
      → IsStream d p
      → write marshal (λ sent b. some (sent ++ b)) [] entries ≡ some text
      → publish d marshal p entries ≡ some text
  unfolding publish
  stream_published p entries {text} stream wrote =
      rw (stream.opens, stream.sends, wrote, stream.closes text) refl

  -- A producer over a stream whose entries are encoded as lines from which they are decoded again:
  -- when `Run` returns, the receiver of the stream sends on the entries of all its ticks, in order,
  -- and the file output gives its `bufio.Writer` the stream, byte for byte.
  pub ticks_arrive :
      (scan : Bytes → List Bytes) (p : Producer) (msg : Bytes) {s : Producing Bytes}
      → IsStream d p.publisher
      → IsScan scan
      → All (Encodable marshal unmarshal) (map (entry_at msg) s.ticks)
      → Reach d marshal p msg s
      → s.phase ≡ returned
      → (text : Bytes) × (produce p.message_size s.ticks ≡ some (map (entry_at msg) s.ticks))
        × (s.publishing ≡ finished text)
        × (receive_stream unmarshal scan text [] ≡ map (entry_at msg) s.ticks)
        × (write_output marshal (λ held b. held ++ b) [] (map (entry_at msg) s.ticks) ≡ text)
  ticks_arrive scan p msg {s} stream law encodable r e =
      let entries = map (entry_at msg) s.ticks in
      let (conn, made, at, published) = returned_published d marshal p msg r e in
      let (text, wrote, got, stored) =
        stream_round_trip marshal unmarshal scan entries law encodable in
      let same : conn ≡ text = ground (arith, stream_published p.publisher entries stream wrote) in
      (text, made, at ∙ ap finished same, got, stored)

-- ===== src/LogAggregator/Wire/Tests.antt =====
-- Two entries, and a message of 30 bytes.
use performance_handbook.Base.{◌≡◌, List, [], ◌∷◌, ◌++◌, some, arith, Bytes, refl, length}
use performance_handbook.LogAggregator.Wire.{LogEntry, write, receive_datagrams}
use performance_handbook.LogAggregator.Wire.Codec.{at_time, time_only, first_byte, one}
use performance_handbook.LogAggregator.Wire.RoundTrip.{pick, datagram_round_trip}

abbrev two : List LogEntry
two = at_time 40 ∷ at_time 50 ∷ []

-- The second datagram comes twice, before the first and behind it.
datagram_round_trip_example :
    (last : List Bytes) × (write time_only (λ all b. some (all ++ b ∷ [])) [] two ≡ some last)
    × (length last ≡ 2)
    × (receive_datagrams first_byte (pick last (1 ∷ 0 ∷ 1 ∷ [])) [] ≡ pick two (1 ∷ 0 ∷ 1 ∷ []))
unfolding one
datagram_round_trip_example =
    datagram_round_trip time_only first_byte (λ all b. some (all ++ b ∷ [])) (λ all. all) [] two
      (1 ∷ 0 ∷ 1 ∷ []) (λ all b. (_, refl, refl)) refl
      ((one 40 (omega arith), omega arith), ((one 50 (omega arith), omega arith), tt))

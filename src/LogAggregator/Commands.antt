-- ===== src/LogAggregator/Commands.antt =====
-- cmd/producer/main.go and cmd/aggregator/main.go: the arguments of the two programs.
pub mod Pairing
use Prim.Native.String.{String}
use performance_handbook.Base.{
  ℕ, ◌+◌, Bool, true, false, List, [], ◌∷◌, Option, none, some, ◌>>=◌, if◌then◌else◌,
}
use performance_handbook.Base.Int.{ℤ, pos, ltb_ℤ}
use performance_handbook.LogAggregator.Registry.{
  Producer, Aggregator, Ipc, get_aggregator, get_producer,
}

-- The aggregator that `main` runs, for `os.Args`; none is an exit with status 1.
unfoldable pub aggregator_main : List (String × Ipc) → List String → Option Aggregator
aggregator_main types [] = none
aggregator_main types (program ∷ []) = none
aggregator_main types (program ∷ ipc_type ∷ more) = get_aggregator types ipc_type

-- The producer that `main` runs; `sscanf` is `fmt.Sscanf` of the argument for "%d", where none is an
-- error.
unfoldable pub producer_main :
    (String → Option ℤ) → List (String × Ipc) → List String → Option Producer
producer_main sscanf types [] = none
producer_main sscanf types (program ∷ []) = none
producer_main sscanf types (program ∷ ipc_type ∷ []) = none
producer_main sscanf types (program ∷ ipc_type ∷ text ∷ more) = do
  message_size ← sscanf text
  if ltb_ℤ (pos 0) message_size then (get_producer types ipc_type message_size).0 else none

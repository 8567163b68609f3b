-- ===== src/LogAggregator/Commands/Pairing.antt =====
-- The two programs, started with one name.
use Prim.Native.String.{String}
use performance_handbook.Base.{
  ℕ, ◌<◌, ◌≡◌, ap, ◌∙◌, ◌⊎◌, inl, inr, [], ◌∷◌, Option, none, some, arith, Bytes, length,
}
use performance_handbook.Base.Int.{ℤ, pos}
use performance_handbook.LogAggregator.Wire.{message_of_size}
use performance_handbook.LogAggregator.Wire.Message.{message_of_size_letters}
use performance_handbook.LogAggregator.Registry.{Producer, Aggregator, ipc_types}
use performance_handbook.LogAggregator.Registry.Endpoints.{SameEnd, ends_meet}
use performance_handbook.LogAggregator.Commands.{aggregator_main, producer_main}

-- Started with the same name, and the producer with a text that is read as a positive size: either
-- both programs exit at once, or both run; then the producer's publisher and the aggregator's
-- receiver use one protocol and one address, and the message of the producer has the size asked
-- for.
pub programs_pair :
    (sscanf : String → Option ℤ) (p a name text : String) (n : ℕ)
    → 0 < n
    → sscanf text ≡ some (pos n)
    → (((producer_main sscanf ipc_types (p ∷ name ∷ text ∷ []) ≡ none)
          × (aggregator_main ipc_types (a ∷ name ∷ []) ≡ none))
        ⊎ ((prod : Producer) × (agg : Aggregator) × (msg : Bytes) × (producer_main sscanf ipc_types
                (p ∷ name ∷ text ∷ [])
              ≡ some prod)
            × (aggregator_main ipc_types (a ∷ name ∷ []) ≡ some agg)
            × SameEnd prod.publisher agg.receiver
            × (message_of_size prod.message_size ≡ some msg)
            × (length msg ≡ n)))
unfolding producer_main aggregator_main
programs_pair sscanf p a name text n positive scanned = elim (ends_meet name (pos n)) [
  | inl (no_producer, no_aggregator) ↦ inl (ground arith, no_aggregator)
  | inr (prod, agg, made, found, same, size) ↦
      let (msg, wrote, long, letters) = message_of_size_letters n in
      inr (prod, agg, msg, ground arith, found, same, (ap message_of_size size ∙ wrote), long)
]

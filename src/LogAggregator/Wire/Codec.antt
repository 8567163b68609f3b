-- ===== src/LogAggregator/Wire/Codec.antt =====
-- A codec that writes the time of an entry as one byte, and a scanner for one-byte lines.
use performance_handbook.Base.{
  ℕ, ◌≤◌, ◌≡◌, refl, ap, sym, append-nil, append_assoc, false, ◌∙◌, List, [], ◌∷◌, ◌++◌, Option,
  none, some, arith, Bytes, All, ltb, if◌then◌else◌,
}
use performance_handbook.Base.Int.{pos, pos_part}
use performance_handbook.LogAggregator.Wire.{LogEntry, new_line}
use performance_handbook.LogAggregator.Wire.RoundTrip.{joined, IsScan, Encodable}

abbrev pub at_time : ℕ → LogEntry
at_time t = record { source = "producer"; timestamp = pos t; level = "INFO"; message = [] }

abbrev pub time_only : LogEntry → Option Bytes
time_only e = some (pos_part e.timestamp ∷ [])

abbrev pub first_byte : Bytes → Option LogEntry
first_byte [] = none
first_byte (b ∷ bs) = some (at_time b)

-- Lines by a split at newlines.
abbrev pub split_from : Bytes → Bytes → List Bytes
split_from line [] = []
split_from line (b ∷ bs) =
    if ltb b 32 then line ∷ split_from [] bs else split_from (line ++ b ∷ []) bs

split_line :
    (start line rest : Bytes)
    → All (λ b. 32 ≤ b) line
    → split_from start ((line ++ new_line ∷ []) ++ rest) ≡ (start ++ line) ∷ split_from [] rest
split_line start [] rest h = ap (λ l. l ∷ split_from [] rest) (sym (append-nil start))
split_line start (b ∷ bs) rest h =
    let (text, tail) : (ltb b 32 ≡ false) × All (λ c. 32 ≤ c) bs = (ground arith, h.1) in
    rw text (
      split_line (start ++ b ∷ []) bs rest tail
      ∙ ap (λ l. l ∷ split_from [] rest) (append_assoc start (b ∷ []) bs))

pub split-IsScan : IsScan (split_from [])
split-IsScan [] h = refl
split-IsScan (line ∷ lines) h =
    split_line [] line (joined lines) h.0.0 ∙ ap (◌∷◌ line) (split-IsScan lines h.1)

unfoldable pub one : (t : ℕ) → 32 ≤ t → Encodable time_only first_byte (at_time t)
one t h = record {
  text = t ∷ [];
  encoded = refl;
  decoded = refl;
  decoded_line = refl;
  is_line = ((h, tt), omega arith);
}

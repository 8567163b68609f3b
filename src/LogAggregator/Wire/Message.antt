-- ===== src/LogAggregator/Wire/Message.antt =====
-- `MessageOfSize`: its length and its bytes.
use performance_handbook.Base.{
  ℕ, zero, suc, ◌+◌, ◌%◌, ◌≤◌, ◌<◌, ◌≡◌, refl, ap, ◌⊎◌, inl, inr, ◌∙◌, some, arith, Bytes, length,
  get_or,
}
use performance_handbook.Base.Int.{pos}
use performance_handbook.LogAggregator.Wire.{message_from, message_of_size}

length-message_from : (i n : ℕ) → length (message_from i n) ≡ n
unfolding message_from
length-message_from i zero = refl
length-message_from i (suc n) = ap (λ k. suc k) (length-message_from (i + 1) n)

message_from_at : (i n k d : ℕ) → k < n → get_or (message_from i n) k d ≡ 65 + (i + k) % 26
unfolding message_from
message_from_at i zero k d h = absurd (omega arith)
message_from_at i (suc n) zero d h = ground arith
message_from_at i (suc n) (suc k) d h = message_from_at (i + 1) n k d (omega arith) ∙ ground arith

leb-cases : (n k : ℕ) → (n ≤ k) ⊎ (k < n)
leb-cases n k = omega arith

-- For every size that is not negative, `MessageOfSize` gives that many bytes; the byte at `k` is the
-- letter `k mod 26` of the alphabet, so each byte is one of 'A' (65), ..., 'Z' (90).
pub message_of_size_letters :
    (n : ℕ)
    → (msg : Bytes) × (message_of_size (pos n) ≡ some msg)
      × (length msg ≡ n)
      × ((k : ℕ)
          → (n ≤ k)
            ⊎ ((get_or msg k 0 ≡ 65 + k % 26) × (65 ≤ get_or msg k 0) × (get_or msg k 0 ≤ 90)))
unfolding message_of_size
message_of_size_letters n = (
  message_from 0 n,
  ground arith,
  length-message_from 0 n,
  λ k. elim (leb-cases n k) [
    | inl out ↦ inl out
    | inr below ↦
        let e = message_from_at 0 n k 0 below in inr (e ∙ ground arith, omega arith, omega arith)
  ],
)

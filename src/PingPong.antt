-- ===== src/PingPong.antt =====
-- labs/0105-go-locking-vs-channels/pingpong.go: a token that goes round among `n` goroutines, by a
-- mutex with a condition variable or by a ring of channels.
mod Order
pub mod Monitor
mod Progress
mod Tests
use performance_handbook.Base.{ℕ, ◌+◌, ◌%◌, ◌<◌, ◌≡◌, ◌≢◌, List, [], ◌∷◌, ◌++◌, Option, none, some}

-- 2^64; the counter is an `int64`, given by its bits.
abbrev pub modulus : ℕ
modulus = 18446744073709551616

-- `turn` and `counter`; `order` are the goroutines that have held the token, in order.
pub record Turns : Type 0 where
  pub turn : ℕ
  pub counter : ℕ
  pub order : List ℕ

pub first_turn : Turns
first_turn = record { turn = 0; counter = 0; order = [] }

module _ (n : ℕ) where
  -- One round of the goroutine `id`, from the test `turn != id` that fails to the `Unlock`: it
  -- holds the mutex all the while.
  pub data TakeTurn (s : Turns) : Turns → Type 0 where
    hand_over :
        (id : ℕ)
        → id < n
        → s.turn ≡ id
        → TakeTurn s (record {
          turn = (s.turn + 1) % n;
          counter = (s.counter + 1) % modulus;
          order = s.order ++ id ∷ [];
        })

-- Where the token is. All goroutines that do not have it stand at `<-in`.
pub data Token : Type 0 where
  -- a goroutine is blocked sending it on `chans[c]`: the one given, or the one that starts the ring
  offered : Option ℕ → ℕ → Token
  received : ℕ → Token  -- before `AddInt64`
  counted : ℕ → Token  -- before the send

pub record Ring : Type 0 where
  pub token : Token
  pub counter : ℕ
  pub order : List ℕ

pub first_ring : Ring
first_ring = record { token = offered none 0; counter = 0; order = [] }

module _ (n : ℕ) where
  -- A channel without a buffer passes the token only if the receiver is not the sender.
  pub data RingStep (s : Ring) : Ring → Type 0 where
    receive :
        {from : Option ℕ} {c : ℕ}
        → s.token ≡ offered from c
        → c < n
        → from ≢ some c
        → RingStep s (record s { token = received c })
    add_one :
        {id : ℕ}
        → s.token ≡ received id
        → RingStep s (record {
          token = counted id;
          counter = (s.counter + 1) % modulus;
          order = s.order ++ id ∷ [];
        })
    send :
        {id : ℕ}
        → s.token ≡ counted id
        → RingStep s (record s { token = offered (some id) ((id + 1) % n) })

  pub data Turning : Turns → Type 0 where
    begin : Turning first_turn
    later : {s t : Turns} → Turning s → TakeTurn n s t → Turning t

  pub data Running : Ring → Type 0 where
    begin : Running first_ring
    later : {s t : Ring} → Running s → RingStep s t → Running t

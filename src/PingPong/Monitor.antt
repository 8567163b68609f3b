-- ===== src/PingPong/Monitor.antt =====
-- labs/0105-go-locking-vs-channels/pingpong.go: the goroutines with the mutex and the condition
-- variable, one access after the other.
pub mod Refining
pub mod Coming
mod Tests
use mathlib.Core.Logic.{ite}
use native.Mathlib.Decide.{ℕ_discrete}
use performance_handbook.Base.{ℕ, ◌+◌, ◌%◌, ◌<◌, ◌≡◌, ◌≢◌, List, [], ◌∷◌, ◌++◌, Option, none, some}
use performance_handbook.PingPong.{modulus, Turns, first_turn}

-- Where the goroutine that holds the mutex stands
pub data Held : Type 0 where
  testing : Held  -- before `turn != id`
  adding : Held  -- before `AddInt64`
  added : Held  -- before the assignment to `turn`
  turned : Held  -- before `Broadcast`
  leaving : Held  -- before `Unlock`

-- Where a goroutine stands that does not hold it
pub data Outside : Type 0 where
  locking : Outside  -- at `Lock`
  asleep : Outside  -- in `Wait`
  woken : Outside  -- in `Wait`, about to take the mutex again

-- `places` says nothing of the goroutine in `holder`.
pub record Monitor : Type 0 where
  pub turns : Turns
  pub holder : Option (ℕ × Held)
  pub places : ℕ → Outside

pub first_monitor : Monitor
unfolding first_turn
first_monitor = record { turns = first_turn; holder = none; places = λ id. locking }

abbrev pub put : (ℕ → Outside) → ℕ → Outside → ℕ → Outside
put places id place other = ite (ℕ_discrete id other) place (places other)

abbrev pub wake : Outside → Outside
wake locking = locking
wake asleep = woken
wake woken = woken

module _ (n : ℕ) where
  pub data Step (s : Monitor) : Monitor → Type 0 where
    lock :
        (id : ℕ)
        → id < n
        → s.holder ≡ none
        → s.places id ≡ locking
        → Step s (record s { holder = some (id, testing) })
    wait :
        {id : ℕ}
        → s.holder ≡ some (id, testing)
        → s.turns.turn ≢ id
        → Step s (record s { holder = none; places = put s.places id asleep })
    lock_again :
        (id : ℕ)
        → id < n
        → s.holder ≡ none
        → s.places id ≡ woken
        → Step s (record s { holder = some (id, testing) })
    pass :
        {id : ℕ}
        → s.holder ≡ some (id, testing)
        → s.turns.turn ≡ id
        → Step s (record s { holder = some (id, adding) })
    add_one :
        {id : ℕ}
        → s.holder ≡ some (id, adding)
        → Step s (record s {
          turns = record s.turns {
            counter = (s.turns.counter + 1) % modulus;
            order = s.turns.order ++ id ∷ [];
          };
          holder = some (id, added);
        })
    turn_over :
        {id : ℕ}
        → s.holder ≡ some (id, added)
        → Step s (record s {
          turns = record s.turns { turn = (s.turns.turn + 1) % n };
          holder = some (id, turned);
        })
    broadcast :
        {id : ℕ}
        → s.holder ≡ some (id, turned)
        → Step s (record s { holder = some (id, leaving); places = λ other. wake (s.places other) })
    unlock :
        {id : ℕ}
        → s.holder ≡ some (id, leaving)
        → Step s (record s { holder = none; places = put s.places id locking })

  pub data Steps (s : Monitor) : Monitor → Type 0 where
    stay : Steps s s
    go : {t u : Monitor} → Steps s t → Step t u → Steps s u

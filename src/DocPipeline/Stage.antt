-- ===== src/DocPipeline/Stage.antt =====
-- internal/pipeline/stage.go: a stage with its workers, as a transition system. A step is one
-- communication or one shared access of one goroutine; any order of steps is an execution.
pub mod Invariant
mod Closing
pub mod Safety
pub mod Progress
pub mod Flow
mod Tests
use performance_handbook.Base.{
  ℕ, ◌+◌, ◌-◌, ◌<◌, ◌≡◌, Bool, true, false, List, [], ◌∷◌, ◌++◌, Option, none, some, length,
  replicate, if◌then◌else◌,
}
use performance_handbook.Base.Int.{ℤ, pos, pos_part, ltb_ℤ}

abbrev pub default_buffer_size : ℕ
default_buffer_size = 100

-- `Stage`, without the channel, the function and the metrics, which are in `State` and `Step`.
pub record Stage : Type 0 where
  pub workers : ℤ
  pub buffer_size : ℤ

-- `NewStage`
unfoldable pub new_stage : ℤ → ℤ → Stage
new_stage workers buffer_size = record {
  workers = if ltb_ℤ (pos 0) workers then workers else pos 1;
  buffer_size = if ltb_ℤ (pos 0) buffer_size then buffer_size else pos default_buffer_size;
}

-- Where a worker of `Run` stands.
pub data Worker {ℓ κ} (I : Type ℓ) (O : Type κ) : Type (ℓ ⊔ κ) where
  ready : Worker I O  -- at the first `select`
  received : I → Worker I O  -- before `IncStageTotalProcessedItems`
  counted : I → Worker I O  -- before the call of `fn`
  failing : I → Worker I O  -- `fn` returned an error: before `IncStageErrors`
  measured : I → O → Worker I O  -- `fn` returned a value: before `RecordProcessingLatency`
  sending : I → O → Worker I O  -- at the second `select`
  returned : Worker I O

pub record State {ℓ κ} (I : Type ℓ) (O : Type κ) : Type (ℓ ⊔ κ) where
  -- `s.in`: what has been been sent on it and not received, and whether it is closed
  pub input : List I
  pub in_closed : Bool
  pub cancelled : Bool
  pub workers : List (Worker I O)
  pub out : List O
  pub out_closed : Bool
  -- the counter of `wg`
  pub wait_group : ℕ
  -- the metrics
  pub processed : ℕ
  pub errors : ℕ
  pub latencies : ℕ
  -- the history: all that was sent to the stage; the items whose results went into `out`, those that
  -- failed, and those whose results were given up; and what was received from `out`
  pub offered : List I
  pub sent : List I
  pub failed : List I
  pub dropped : List I
  pub consumed : List O

-- `Run`, before any goroutine has moved.
unfoldable pub start {ℓ κ} : {I : Type ℓ} {O : Type κ} → Stage → State I O
start s = record {
  input = [];
  in_closed = false;
  cancelled = false;
  workers = replicate (pos_part s.workers) ready;
  out = [];
  out_closed = false;
  wait_group = pos_part s.workers;
  processed = 0;
  errors = 0;
  latencies = 0;
  offered = [];
  sent = [];
  failed = [];
  dropped = [];
  consumed = [];
}

-- `fn` is the function of the stage, where `none` is an error; `capacity` is that of `out`.
module _ {ℓ κ} {I : Type ℓ} {O : Type κ} (fn : I → Option O) (capacity : ℕ) where
  -- One step of one worker, from the state `s` and its own `Worker` to a new state and its next one.
  -- The workers in the new state are set by `Step`.
  pub data Move (s : State I O) : Worker I O → State I O → Worker I O → Type (ℓ ⊔ κ) where
    see_cancelled :
        s.cancelled ≡ true → Move s ready (record s { wait_group = s.wait_group - 1 }) returned
    see_closed :
        s.in_closed ≡ true
        → s.input ≡ []
        → Move s ready (record s { wait_group = s.wait_group - 1 }) returned
    receive :
        {x : I} {xs : List I}
        → s.input ≡ x ∷ xs
        → Move s ready (record s { input = xs }) (received x)
    count_item :
        {x : I} → Move s (received x) (record s { processed = s.processed + 1 }) (counted x)
    call_ok : {x : I} {y : O} → fn x ≡ some y → Move s (counted x) s (measured x y)
    call_error : {x : I} → fn x ≡ none → Move s (counted x) s (failing x)
    count_error :
        {x : I}
        → Move s (failing x) (record s { errors = s.errors + 1; failed = s.failed ++ x ∷ [] }) ready
    record_latency :
        {x : I} {y : O}
        → Move s (measured x y) (record s { latencies = s.latencies + 1 }) (sending x y)
    send :
        {x : I} {y : O}
        → length s.out < capacity
        → Move s (sending x y) (record s { out = s.out ++ y ∷ []; sent = s.sent ++ x ∷ [] }) ready
    give_up :
        {x : I} {y : O}
        → s.cancelled ≡ true
        → Move s
            (sending x y)
            (record s { wait_group = s.wait_group - 1; dropped = s.dropped ++ x ∷ [] })
            returned

  -- The steps of the workers, of the goroutine that closes `out`, and of those who send items to the
  -- stage, close its input, cancel the context and receive its results.
  pub data Step (s : State I O) : State I O → Type (ℓ ⊔ κ) where
    worker :
        (ws vs : List (Worker I O)) {w w' : Worker I O} {t : State I O}
        → s.workers ≡ ws ++ w ∷ vs
        → Move s w t w'
        → Step s (record t { workers = ws ++ w' ∷ vs })
    close_out : s.wait_group ≡ 0 → s.out_closed ≡ false → Step s (record s { out_closed = true })
    offer :
        (x : I)
        → s.in_closed ≡ false
        → Step s (record s { input = s.input ++ x ∷ []; offered = s.offered ++ x ∷ [] })
    close_in : s.in_closed ≡ false → Step s (record s { in_closed = true })
    cancel : Step s (record s { cancelled = true })
    consume :
        {y : O} {ys : List O}
        → s.out ≡ y ∷ ys
        → Step s (record s { out = ys; consumed = s.consumed ++ y ∷ [] })

-- The states that a stage can reach: `out` is made with the stage's buffer size.
pub data Reach {ℓ κ} {I : Type ℓ} {O : Type κ} (fn : I → Option O) (stage : Stage)
    : State I O → Type (ℓ ⊔ κ) where
  begin : Reach fn stage (start stage)
  later :
      {s t : State I O}
      → Reach fn stage s
      → Step fn (pos_part stage.buffer_size) s t
      → Reach fn stage t

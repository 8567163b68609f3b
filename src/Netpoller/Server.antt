-- ===== src/Netpoller/Server.antt =====
-- labs/0102-go-netpoller-epoll/server.go: the goroutines that serve connections, and the count of
-- the active ones, as a transition system.
pub mod Active
mod Tests
use performance_handbook.Base.{
  ℕ, zero, suc, ◌+◌, ◌-◌, ◌≡◌, List, [], ◌∷◌, ◌++◌, Option, none, some, Bytes, get_or,
}

abbrev pub work_iterations : ℕ
work_iterations = 2000

-- The rounds of `doWork`, for the byte in `data[0]`; the other 31 stay 0. `first_of_sum` is the
-- first byte of `sha256.Sum256` of the 32 bytes.
pub work_rounds : (ℕ → ℕ) → ℕ → ℕ → ℕ
work_rounds first_of_sum zero byte = byte
work_rounds first_of_sum (suc rounds) byte = work_rounds first_of_sum rounds (first_of_sum byte)

-- `doWork`
pub do_work : (ℕ → ℕ) → ℕ
unfolding work_rounds
do_work first_of_sum = work_rounds first_of_sum work_iterations 0

-- Where a goroutine of `handleConn` stands: before `AddInt64`, at `Read`, at `Write` with its byte,
-- before the deferred `AddInt64`, behind it.
pub data Handler : Type 0 where
  starting : Handler
  reading : Handler
  writing : ℕ → Handler
  leaving : Handler
  closed : Handler

-- `active` has 64 bits; the number of goroutines is below that.
pub record Serving : Type 0 where
  pub handlers : List Handler
  pub active : ℕ
  pub replies : List ℕ

unfoldable pub first_serving : Serving
first_serving = record { handlers = []; active = 0; replies = [] }

module _ (first_of_sum : ℕ → ℕ) where
  pub data Move (s : Serving) : Handler → Serving → Handler → Type 0 where
    enter : Move s starting (record s { active = s.active + 1 }) reading
    read : Move s reading s (writing (do_work first_of_sum))
    read_fails : Move s reading s leaving
    write :
        {byte : ℕ} → Move s (writing byte) (record s { replies = s.replies ++ byte ∷ [] }) reading
    write_fails : {byte : ℕ} → Move s (writing byte) s leaving
    leave : Move s leaving (record s { active = s.active - 1 }) closed

  pub data Step (s : Serving) : Serving → Type 0 where
    accept : Step s (record s { handlers = s.handlers ++ starting ∷ [] })
    handler :
        (us vs : List Handler) {a b : Handler} {t : Serving}
        → s.handlers ≡ us ++ a ∷ vs
        → Move s a t b
        → Step s (record t { handlers = us ++ b ∷ vs })

  pub data Reach : Serving → Type 0 where
    begin : Reach first_serving
    later : {s t : Serving} → Reach s → Step s t → Reach t

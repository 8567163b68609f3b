-- ===== src/Netpoller.antt =====
-- labs/0102-go-netpoller-epoll/client.go: the connections that the client opens in batches and
-- holds, and what it answers to a burst over all of them. labs/0102-go-netpoller-epoll/server.go:
-- Server.
pub mod Batches
pub mod Percentiles
pub mod Server
mod Tests
use Prim.Native.String.{String}
use text.Mathlib.Text.{◌==◌ as str_eq}
use mathlib.Core.List.{map}
use performance_handbook.Base.{
  ℕ, zero, suc, ◌+◌, ◌-◌, Bool, true, false, List, [], ◌∷◌, ◌++◌, Option, none, some, length, ltb,
  ◌==◌, ◌>>=◌, if◌then◌else◌,
}
use performance_handbook.Base.Totals.{filter_map}
use performance_handbook.Base.Int.{ℤ, pos, pos_part, ltb_ℤ}

-- The value of SERVER_ADDR, which is empty when it is not set
pub server_addr : String → String
server_addr v = if str_eq v "" then "server:9000" else v

-- The number of connections, for the value of CONNS; `atoi` is `strconv.Atoi`.
pub num_conns : (String → Option ℤ) → String → ℤ
num_conns atoi v = if str_eq v "" then pos 2000 else elim (atoi v) [ none ↦ pos 2000 | some n ↦ n ]

abbrev pub batch_size : ℕ
batch_size = 200

-- The rounds of the inner loop: `count` of them, from `i` on
unfoldable pub rounds : ℕ → ℕ → List ℕ
rounds i zero = []
rounds i (suc count) = i ∷ rounds (i + 1) count

pub batch_end : ℕ → ℕ → ℕ
batch_end n start = if ltb n (start + batch_size) then n else start + batch_size

-- The outer loop, on fuel: the rounds of each batch
pub batches_from : ℕ → ℕ → ℕ → List (List ℕ)
unfolding rounds batch_end
batches_from zero n start = []
batches_from (suc fuel) n start =
    let rest = batches_from fuel n (start + batch_size) in
    if ltb start n then rounds start (batch_end n start - start) ∷ rest else []

-- The batches for `numConns`; none is the panic of `make` for a negative capacity.
unfoldable pub batches : ℤ → Option (List (List ℕ))
unfolding batches_from
batches n = if ltb_ℤ n (pos 0) then none else some (batches_from (pos_part n) (pos_part n) 0)

module _ {ℓ} {Conn : Type ℓ} where
  -- The connections that are held after the batches: `dial` is what `net.Dial` answers in a round,
  -- and `finish` the order in which the goroutines of a batch append theirs.
  unfoldable pub hold :
      (ℕ → Option Conn) → (List ℕ → List Conn → List Conn) → List (List ℕ) → List Conn → List Conn
  hold dial finish [] conns = conns
  hold dial finish (batch ∷ later_ones) conns =
      hold dial finish later_ones (conns ++ finish batch (filter_map dial batch))

-- What a goroutine of a burst leaves in `latencies`, for the time that its exchange has taken, or
-- none if it has failed.
unfoldable pub latency : Option ℕ → ℕ
latency none = 0
latency (some time) = time

-- Access to a slice; none is a panic.
abbrev pub get_elem? : List ℕ → ℕ → Option ℕ
get_elem? [] i = none
get_elem? (x ∷ xs) zero = some x
get_elem? (x ∷ xs) (suc i) = get_elem? xs i

-- `pct`; `scaled k p` is `int(float64(k) * p)`, with `p` in percent.
unfoldable pub pct : (ℕ → ℕ → ℕ) → List ℕ → ℕ → Option ℕ
pct scaled latencies p =
    if length latencies == 0 then some 0 else get_elem? latencies (scaled (length latencies - 1) p)

-- `resp`, with its numbers before they are printed
pub record Burst : Type 0 where
  pub conns : ℕ
  pub total_time : ℕ
  pub p50 : ℕ
  pub p99 : ℕ
  pub max : ℕ

-- The handler of /burst, for the time that it has taken and what the exchange over each connection
-- has given; `sort` is `sort.Slice`, and none is a panic.
unfoldable pub burst {ℓ} :
    {Conn : Type ℓ}
    → (List ℕ → List ℕ)
    → (ℕ → ℕ → ℕ)
    → (Conn → Option ℕ)
    → ℕ
    → List Conn
    → Option Burst
unfolding latency pct
burst sort scaled exchange total_time snapshot =
    let latencies = sort (map (λ c. latency (exchange c)) snapshot) in
    do
      p50 ← pct scaled latencies 50
      p99 ← pct scaled latencies 99
      max ← if length latencies == 0 then none else get_elem? latencies (length latencies - 1)
      some (record {
        conns = length snapshot;
        total_time = total_time;
        p50 = p50;
        p99 = p99;
        max = max;
      })

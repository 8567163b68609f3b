-- ===== src/ReverseProxy/Pool.antt =====
-- pkg/pool/pool.go and pkg/connector/connector.go. A connection is named by a number.
pub mod Filling
pub mod Sessions
mod Tests
use Prim.Native.String.{String}
use text.Mathlib.Text.{◌==◌ as str_eq}
use performance_handbook.Base.{
  ℕ, zero, suc, ◌<◌, Bool, List, [], ◌∷◌, ◌++◌, Option, none, some, length, ltb, if◌then◌else◌,
  ◌>>=◌,
}

-- What the network does: the outcomes of the calls of `net.Dial` to come (`none` is an error), and
-- the connections that have been opened and closed.
pub record Network : Type 0 where
  pub dials : List (Option ℕ)
  pub opened : List ℕ
  pub closed : List ℕ

-- `ConnPool`: a channel with room for `size` connections, and what is in it, oldest first.
pub record ConnPool : Type 0 where
  pub size : ℕ
  pub pool : List ℕ

-- `net.Dial`; `none` when it does not return.
pub dial : Network → Option (Option ℕ × Network)
dial net = elim net.dials [
  | [] ↦ none
  | none ∷ rest ↦ some (none, record net { dials = rest })
  | some conn ∷ rest ↦
      some (some conn, record net { dials = rest; opened = net.opened ++ conn ∷ [] })
]

-- `conn.Close()`
abbrev pub close : Network → ℕ → Network
close net conn = record net { closed = net.closed ++ conn ∷ [] }

-- The loop of `NewConnPool`, with the rounds that are left. The second `Option` is the error result.
pub fill : ℕ → ConnPool → Network → Option (Option ConnPool × Network)
unfolding dial
fill zero cp net = some (some cp, net)
fill (suc rounds) cp net = do
  answer ← dial net
  elim answer.0 [
    | none ↦ some (none, answer.1)
    | some conn ↦ fill rounds (record cp { pool = cp.pool ++ conn ∷ [] }) answer.1
  ]

-- `NewConnPool`
pub new_conn_pool : ℕ → Network → Option (Option ConnPool × Network)
unfolding fill
new_conn_pool size net = fill size (record { size = size; pool = [] }) net

-- `ConnPool.Get`; `none` when it blocks.
unfoldable pub get : ConnPool → Option (ℕ × ConnPool)
get cp = elim cp.pool [ [] ↦ none | conn ∷ rest ↦ some (conn, record cp { pool = rest }) ]

-- `ConnPool.Return`
pub give_back : ConnPool → ℕ → Network → ConnPool × Network
give_back cp conn net =
    if ltb (length cp.pool) cp.size
    then (record cp { pool = cp.pool ++ conn ∷ [] }, net)
    else (cp, close net conn)

-- The implementations of `BackendConnector`.
pub data Connector : Type 0 where
  always_dial : Connector
  pooled : ConnPool → Connector

-- `Get` of a connector: the connection, or none for an error; `none` when it does not return.
unfoldable pub connector_get : Connector → Network → Option (Option ℕ × Connector × Network)
unfolding dial get
connector_get always_dial net = do answer ← dial net; some (answer.0, always_dial, answer.1)
connector_get (pooled cp) net = do answer ← get cp; some (some answer.0, pooled answer.1, net)

-- `Return` of a connector
pub connector_return : Connector → ℕ → Network → Connector × Network
unfolding give_back
connector_return always_dial conn net = (always_dial, close net conn)
connector_return (pooled cp) conn net =
    let (cp', net') = give_back cp conn net in (pooled cp', net')

-- `resolveConnector` of cmd/proxy/main.go; the outer `none` is the exit of the process, or a dial
-- that does not return, and the inner one the error result.
unfoldable pub resolve_connector : String → Network → Option (Option Connector × Network)
unfolding new_conn_pool
resolve_connector connector_type net =
    if str_eq connector_type "pool"
    then (do
      made ← new_conn_pool 10 net
      some (elim made.0 [ none ↦ none | some cp ↦ some (pooled cp) ], made.1))
    else if str_eq connector_type "dial"
    then some (some always_dial, net)
    else none

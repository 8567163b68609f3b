-- ===== src/ReverseProxy/Engine/Leases.antt =====
-- What the epoll engine does with the connections of a pool: no operation of it calls `Return`.
use performance_handbook.Base.{
  arith, length, length-append, ℕ, ◌≡◌, refl, subst, Bool, List, [], ◌∷◌, ◌++◌, append_assoc, none,
  some,
}
use performance_handbook.ReverseProxy.Pool.{
  Network, ConnPool, Connector, pooled, connector_get, get,
}
use performance_handbook.ReverseProxy.Engine.{
  ReadResult, WriteResult, handle_event, Answers, Proxy, serve,
}

-- Executions of the engine, with the connections that its connector gave it, oldest first.
pub data Steps (p : Proxy) : List ℕ → Proxy → Type 0 where
  here : Steps p [] p
  event :
      {lent : List ℕ} {q : Proxy}
      → Steps p lent q
      → (fd : ℕ) (readable : Bool) (read : ReadResult) (write : WriteResult)
      → Steps p lent (record q { engine = handle_event q.engine fd readable read write })
  served :
      {lent : List ℕ} {q r : Proxy} {fine : Bool} {conn : ℕ} {connector : Connector} {net : Network}
      → Steps p lent q
      → (a : Answers) → connector_get q.connector q.net ≡ some (some conn, connector, net)
      → serve q a ≡ some (r, fine)
      → Steps p (lent ++ conn ∷ []) r

serve_keeps :
    (q r : Proxy) (a : Answers) (fine : Bool) (conn : ℕ) (connector : Connector) (net : Network)
    → connector_get q.connector q.net ≡ some (some conn, connector, net)
    → serve q a ≡ some (r, fine)
    → r.connector ≡ connector
unfolding serve
serve_keeps q r a fine conn connector net got e = ground arith

pop_pool :
    (cp : ConnPool) (net : Network) (conn : ℕ) (connector : Connector) (net' : Network)
    → connector_get (pooled cp) net ≡ some (some conn, connector, net')
    → (rest : List ℕ) × (connector ≡ pooled (record cp { pool = rest })) × (cp.pool ≡ conn ∷ rest)
unfolding connector_get get
pop_pool cp net conn connector net' e = ground arith

-- However the engine runs from a pool: the connections that it was given, and then those that are
-- left in the pool, are the connections of the pool at the start, in order. None comes back,
-- neither when its session ends nor when `Serve` fails after `Get`.
pub pool_only_drains :
    (p : Proxy) (cp : ConnPool) {q : Proxy} {lent : List ℕ}
    → p.connector ≡ pooled cp
    → Steps p lent q
    → (rest : List ℕ) × (q.connector ≡ pooled (record cp { pool = rest }))
      × (cp.pool ≡ lent ++ rest)
pool_only_drains p cp start here = (cp.pool, start, refl)
pool_only_drains p cp start (event steps fd readable read write) = pool_only_drains p cp start steps
pool_only_drains p cp start
      (served {lent = lent} {q} {r} {fine} {conn} {connector} {net} steps a got e) =
    let (rest, at, whole) = pool_only_drains p cp start steps in
    let (left, next, shorter) =
      pop_pool (record cp { pool = rest }) q.net conn connector net
        (subst (λ c. connector_get c q.net ≡ some (some conn, connector, net)) at got) in
    let kept = serve_keeps q r a fine conn connector net got e in
    (left, cc, cc (append_assoc lent (conn ∷ []) left))

drained : (xs ys : List ℕ) → length xs ≡ length (xs ++ ys) → ys ≡ []
drained xs [] e = refl
drained xs (y ∷ ys) e = ground (arith, length-append xs (y ∷ ys))

-- Once it was given as many connections as the pool had, a further `Serve` never returns.
pub exhausted_pool_blocks :
    (p : Proxy) (cp : ConnPool) {q : Proxy} {lent : List ℕ} (a : Answers)
    → p.connector ≡ pooled cp
    → Steps p lent q
    → length lent ≡ length cp.pool
    → serve q a ≡ none
unfolding serve connector_get get
exhausted_pool_blocks p cp {lent = lent} a start steps full =
    let (rest, at, whole) = pool_only_drains p cp start steps in
    let empty : rest ≡ [] = drained lent rest (ground arith) in rw (at, empty) refl

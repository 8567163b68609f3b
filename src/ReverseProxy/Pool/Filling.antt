-- ===== src/ReverseProxy/Pool/Filling.antt =====
-- What `NewConnPool` makes of the network's answers.
use performance_handbook.Base.{
  ℕ, zero, suc, ◌+◌, ◌<◌, ◌≡◌, refl, ◌-◌, ◌∙◌, List, [], ◌∷◌, ◌++◌, Option, none, some, arith,
  length, append_assoc, append-nil,
}
use performance_handbook.ReverseProxy.Pool.{Network, ConnPool, dial, fill, new_conn_pool}

-- Answers of `net.Dial` that all succeed, before others.
abbrev pub answers : List ℕ → List (Option ℕ) → List (Option ℕ)
answers [] rest = rest
answers (conn ∷ conns) rest = some conn ∷ answers conns rest

fill_some :
    (conns : List ℕ) (n rounds : ℕ) (rest : List (Option ℕ)) (cp : ConnPool) (net : Network)
    → n ≡ length conns + rounds
    → net.dials ≡ answers conns rest
    → fill n cp net
      ≡ fill rounds
          (record cp { pool = cp.pool ++ conns })
          (record { dials = rest; opened = net.opened ++ conns; closed = net.closed })
unfolding fill dial
fill_some [] n rounds rest cp net en e =
    let same : n ≡ rounds = omega arith in
    rw (same, append-nil cp.pool, append-nil net.opened, ← e) refl
fill_some (conn ∷ conns) zero rounds rest cp net en e = absurd (omega arith)
fill_some (conn ∷ conns) (suc n) rounds rest cp net en e =
    rw (e, fill, dial)
      (fill_some conns n rounds rest (record cp { pool = cp.pool ++ conn ∷ [] })
          (record net { dials = answers conns rest; opened = net.opened ++ conn ∷ [] })
          (omega arith) refl
        ∙ rw (append_assoc cp.pool (conn ∷ []) conns, append_assoc net.opened (conn ∷ []) conns)
            refl)

-- When enough dials succeed, the pool is full, and holds just the connections that were opened, in
-- the order of the dials.
pub new_conn_pool_fills :
    (conns : List ℕ) (rest : List (Option ℕ)) (net : Network)
    → net.dials ≡ answers conns rest
    → new_conn_pool (length conns) net
      ≡ some (
        some (record { size = length conns; pool = conns }),
        record { dials = rest; opened = net.opened ++ conns; closed = net.closed },
      )
unfolding new_conn_pool fill
new_conn_pool_fills conns rest net e =
    fill_some conns (length conns) 0 rest (record { size = length conns; pool = [] }) net
      (omega arith) e

-- When a dial fails before the pool is full, `NewConnPool` returns the error, and the connections
-- that it has opened by then stay open: none of them is closed, and no pool holds them.
pub new_conn_pool_leaks :
    (conns : List ℕ) (size : ℕ) (rest : List (Option ℕ)) (net : Network)
    → net.dials ≡ answers conns (none ∷ rest)
    → length conns < size
    → new_conn_pool size net
      ≡ some (none, record { dials = rest; opened = net.opened ++ conns; closed = net.closed })
unfolding new_conn_pool fill dial
new_conn_pool_leaks conns size rest net e h =
    fill_some conns size (suc (size - length conns - 1)) (none ∷ rest)
      (record { size = size; pool = [] }) net (omega arith) e

-- ===== src/ReverseProxy/Command/Exhaustion.antt =====
-- The epoll engine with a pool, from the start of the program on.
use performance_handbook.Base.{
  ℕ, suc, ◌≤◌, ◌<◌, ◌≡◌, ◌⊎◌, inl, inr, refl, subst, true, List, [], ◌∷◌, ◌++◌, Option, none, some,
  arith, length, ◌>>=◌,
}
use performance_handbook.ReverseProxy.Pool.{Network, pooled, connector_get, get, new_conn_pool}
use performance_handbook.ReverseProxy.Pool.Filling.{answers, new_conn_pool_fills}
use performance_handbook.ReverseProxy.Engine.{
  EpollEngine, new_epoll_engine, handle_event, Answers, serve, register_both,
}
use performance_handbook.ReverseProxy.Command.{
  epoll_engine, Program, start, Input, accept_error, client, event, accept_loop,
}

abbrev pub clients : List Input → ℕ
clients [] = 0
clients (accept_error ∷ more) = clients more
clients (client a ∷ more) = suc (clients more)
clients (event fd readable read write ∷ more) = clients more

-- As many clients as the pool holds are served, and no more.
abbrev pub Outcome : ℕ → List Input → Option Program → Type 0
Outcome pool inputs result =
    ((clients inputs ≤ pool) × (q : Program) × (result ≡ some q))
    ⊎ ((pool < clients inputs) × (result ≡ none))

abbrev running : EpollEngine → ℕ → List ℕ → Network → Program
running e size xs net = record {
  engine = epoll_engine e;
  backend = pooled (record { size = size; pool = xs });
  net = net;
}

one_more :
    (pool : ℕ) (a : Answers) (inputs : List Input) {result : Option Program}
    → Outcome pool inputs result
    → Outcome (suc pool) (client a ∷ inputs) result
one_more pool a inputs (inl (few, q, e)) = inl (omega arith, q, e)
one_more pool a inputs (inr (many, blocked)) = inr (omega arith, blocked)

loop_serves :
    (e : EpollEngine) (size : ℕ) (xs : List ℕ) (net : Network) (inputs : List Input)
    → Outcome (length xs) inputs (accept_loop (running e size xs net) inputs)
unfolding accept_loop serve connector_get get
loop_serves e size xs net [] = inl (omega arith, _, refl)
loop_serves e size xs net (accept_error ∷ more) = loop_serves e size xs net more
loop_serves e size xs net (event fd readable read write ∷ more) =
    loop_serves (handle_event e fd readable read write) size xs net more
loop_serves e size [] net (client a ∷ more) = inr (omega arith, refl)
loop_serves e size (x ∷ xs) net (client a ∷ more) =
    one_more (length xs) a more
      (loop_serves (register_both e a a.client a.backend).0 size xs net more)

started :
    (conns : List ℕ) (rest : List (Option ℕ)) (net : Network)
    → net.dials ≡ answers conns rest
    → length conns ≡ 10
    → start (some "pool") (some "epoll") net true true
      ≡ some (
          running new_epoll_engine 10 conns
            (record { dials = rest; opened = net.opened ++ conns; closed = net.closed }))
unfolding start
started conns rest net e ten =
    let filled = new_conn_pool_fills conns rest net e in
    let ten_filled =
      subst
        (λ n.
          new_conn_pool n net
          ≡ some (
            some (record { size = n; pool = conns }),
            record { dials = rest; opened = net.opened ++ conns; closed = net.closed },
          ))
        ten filled in
    rw ten_filled refl

abbrev pub run_proxy : Network → List Input → Option Program
run_proxy net inputs =
    start (some "pool") (some "epoll") net true true >>= λ p. accept_loop p inputs

-- Started with a pool and the epoll engine, where ten dials succeed, and the listener and the epoll
-- descriptor are made: whatever clients, errors and events then come, and whatever the calls for
-- each answer, the program accepts ten clients in its life, and at the eleventh its loop stands
-- still for ever, also when all clients before have left.
pub pool_serves_ten :
    (conns : List ℕ) (rest : List (Option ℕ)) (net : Network) (inputs : List Input)
    → net.dials ≡ answers conns rest
    → length conns ≡ 10
    → Outcome 10 inputs (run_proxy net inputs)
pool_serves_ten conns rest net inputs e ten = rw (started conns rest net e ten) (
    subst (λ n. Outcome n inputs (accept_loop (running new_epoll_engine 10 conns net') inputs)) ten
      (loop_serves new_epoll_engine 10 conns net' inputs))
  where
    net' : Network
    net' = record { dials = rest; opened = net.opened ++ conns; closed = net.closed }

-- ===== src/ReverseProxy/Engine/Tests.antt =====
-- A client at descriptor 3 and a backend at 4; a second client at 5 and its backend at 6.
use native.Mathlib.Decide.{ℕ_discrete}
use performance_handbook.Base.{ℕ, ◌≡◌, ◌≢◌, refl, inl, true, [], ◌∷◌, ◌++◌, none, some, arith, take}
use performance_handbook.ReverseProxy.Pool.{Network, ConnPool, pooled, connector_get, get}
use performance_handbook.ReverseProxy.Engine.{
  ProxyConn, EpollEngine, new_epoll_engine, put, bytes, took, handle_event, destination, register,
  register_both, Answers, Proxy, serve,
}
use performance_handbook.ReverseProxy.Engine.Pairs.{
  IsPair, IsPaired, register-IsPaired, handle_event-IsPaired,
}
use performance_handbook.ReverseProxy.Engine.Forwarding.{
  handle_event_forwards, handle_event_closes, at_end,
}
use performance_handbook.ReverseProxy.Engine.Leases.{Steps, here, event, served}

abbrev a_pair : ProxyConn
a_pair = record { client_fd = 3; backend_fd = 4 }

abbrev one_pair : EpollEngine
one_pair = (register new_epoll_engine 3 4 true true).0

none-IsPaired : IsPaired new_epoll_engine.conns
unfolding new_epoll_engine
none-IsPaired fd pc e = ground arith

first_entry-IsPair : IsPair one_pair.conns 3 a_pair
unfolding register ℕ_discrete
first_entry-IsPair = record {
  mine = inl refl;
  apart = omega arith;
  at_client = refl;
  at_backend = refl;
}

handle_event-IsPaired_example : IsPaired (handle_event one_pair 3 true (bytes []) (took 0)).conns
unfolding new_epoll_engine
handle_event-IsPaired_example =
    handle_event-IsPaired one_pair 3 true (bytes []) (took 0)
      (register-IsPaired new_epoll_engine 3 4 true true (omega arith) refl refl none-IsPaired)

-- Only two of the three bytes are taken, and they go to the backend.
handle_event_forwards_example :
    (handle_event one_pair 3 true (bytes (71 ∷ 69 ∷ 84 ∷ [])) (took 2) ≡ record one_pair {
      written = one_pair.written ++ (destination a_pair 3, take 2 (71 ∷ 69 ∷ 84 ∷ [])) ∷ [];
    })
    × (one_pair.conns (destination a_pair 3) ≡ some a_pair)
    × (destination a_pair 3 ≢ 3)
    × (destination a_pair (destination a_pair 3) ≡ 3)
unfolding register ℕ_discrete
handle_event_forwards_example =
    handle_event_forwards one_pair 3 a_pair 71 (69 ∷ 84 ∷ []) 2 refl first_entry-IsPair

handle_event_closes_example :
    ((handle_event one_pair 3 true (bytes []) (took 0)).closed ≡ one_pair.closed ++ 3 ∷ 4 ∷ [])
    × ((other : ℕ)
        → (handle_event one_pair 3 true (bytes []) (took 0)).conns other
          ≡ put (put one_pair.conns 3 none) (destination a_pair 3) none other)
unfolding register ℕ_discrete
handle_event_closes_example =
    handle_event_closes one_pair 3 a_pair (bytes []) (took 0) refl first_entry-IsPair at_end

abbrev one_backend : ConnPool
one_backend = record { size = 1; pool = 7 ∷ [] }

abbrev no_dials : Network
no_dials = record { dials = []; opened = 7 ∷ []; closed = [] }

abbrev first : Proxy
first = record { engine = new_epoll_engine; connector = pooled one_backend; net = no_dials }

abbrev both : Answers
both = record { client = some 3; backend = some 4; adds_client = true; adds_backend = true }

abbrev second : Proxy
second = record {
  engine = one_pair;
  connector = pooled (record { size = 1; pool = [] });
  net = no_dials;
}

-- One client is served, and its session ends.
session :
    Steps first
      (7 ∷ [])
      (record second { engine = handle_event one_pair 3 true (bytes []) (took 0) })
unfolding serve connector_get get register_both register
session = event (served {q = first} {r = second} here both refl refl) 3 true (bytes []) (took 0)

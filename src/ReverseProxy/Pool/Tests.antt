-- ===== src/ReverseProxy/Pool/Tests.antt =====
-- Two dials fill a pool of two; then one client borrows, and another waits.
use performance_handbook.Base.{◌+◌, ◌≡◌, refl, [], ◌∷◌, ◌++◌, arith, length}
use performance_handbook.Base.Totals.{SameItems}
use performance_handbook.ReverseProxy.Pool.{Network, ConnPool, pooled, connector_get, get}
use performance_handbook.ReverseProxy.Pool.Sessions.{
  Sessions, serve, borrow, Steps, here, next, opening,
}
use performance_handbook.ReverseProxy.Pool.Sessions.Conservation.{pool_conserved}
use performance_handbook.ReverseProxy.Pool.Sessions.Overlap.{upload_outlives_session}

abbrev one_pool : ConnPool
one_pool = record { size = 1; pool = 7 ∷ [] }

abbrev one_open : Network
one_open = record { dials = []; opened = 7 ∷ []; closed = [] }

record Run : Type 0 where
  last : Sessions
  steps : Steps (opening (pooled one_pool) one_open) last

-- The only connection is lent, and a second client waits for it.
contended : Run
unfolding connector_get get
contended = record {
  last = _;
  steps =
      next (next (next here serve) serve)
        (borrow {c = pooled (record { size = 1; pool = [] })} {net = one_open} (omega arith) refl);
}

pool_conserved_example :
    (cp' : ConnPool) × (contended.last.connector ≡ pooled cp')
    × (contended.last.net ≡ one_open)
    × SameItems (7 ∷ []) (cp'.pool ++ contended.last.lent)
    × (length cp'.pool + length contended.last.lent ≡ 1)
pool_conserved_example = pool_conserved one_pool one_open (λ w. omega arith) refl contended.steps

abbrev two_pool : ConnPool
two_pool = record { size = 2; pool = 7 ∷ 8 ∷ [] }

upload_outlives_session_example :
    (t : Sessions) × Steps (opening (pooled two_pool) one_open) t
    × (t.lent ≡ 8 ∷ 7 ∷ [])
    × (t.uploads ≡ 7 ∷ 8 ∷ 7 ∷ [])
upload_outlives_session_example = upload_outlives_session two_pool one_open [] (8 ∷ []) 7 refl refl

-- ===== src/ReverseProxy/Pool/Sessions/Conservation.antt =====
-- A pool neither opens nor closes connections while it serves.
use performance_handbook.Base.{
  ℕ, ◌+◌, ◌≡◌, refl, ap, subst, List, ◌∷◌, ◌++◌, arith, length, length-append,
}
use performance_handbook.Base.Totals.{total, SameItems, total-append}
use performance_handbook.ReverseProxy.Pool.{Network, ConnPool, Connector, always_dial, pooled}
use performance_handbook.ReverseProxy.Pool.Sessions.{
  Sessions, Step, serve, get_fails, borrow, finish, upload_ends, Steps, here, next, opening, idle,
  Full,
}
use performance_handbook.ReverseProxy.Pool.Sessions.Accounting.{
  Inv, Pooled, Got, connector_get-Got, connector_return-Pooled, Steps-Inv, opening-Inv,
}

Step-Pooled :
    (cp : ConnPool) (net : Network) {s t : Sessions}
    → Step s t
    → Inv s
    → Pooled cp net s.connector s.net
    → Pooled cp net t.connector t.net
Step-Pooled cp net serve v p = p
Step-Pooled cp net {s} (get_fails some_waits e) v p =
    (subst (Got s.connector s.net) e (connector_get-Got s.connector s.net)).3 cp net p
Step-Pooled cp net {s} (borrow some_waits e) v p =
    (subst (Got s.connector s.net) e (connector_get-Got s.connector s.net)).3 cp net p
Step-Pooled cp net {s} (finish us conn vs e) v p =
    connector_return-Pooled cp net s.connector conn s.net (length (us ++ vs))
      (subst (Full s.connector)
        (omega (arith, ap length e, length-append us (conn ∷ vs), length-append us vs)) v.full)
      p
Step-Pooled cp net (upload_ends us conn vs e) v p = p

Steps-Pooled :
    (cp : ConnPool) (net : Network) {s t : Sessions}
    → Steps s t
    → Inv s
    → Pooled cp net s.connector s.net
    → Pooled cp net t.connector t.net
Steps-Pooled cp net here v p = p
Steps-Pooled cp net (next r st) v p =
    Step-Pooled cp net st (Steps-Inv r v) (Steps-Pooled cp net r v p)

pool_view :
    (cp : ConnPool) (net : Network) (c : Connector) (net' : Network) (lent : List ℕ)
    → Pooled cp net c net'
    → Full c (length lent)
    → ((w : ℕ → ℕ) → total w net'.opened ≡ total w (idle c) + total w lent + total w net'.closed)
    → SameItems net.opened (cp.pool ++ net.closed)
    → (cp' : ConnPool) × (c ≡ pooled cp')
      × (net' ≡ net)
      × SameItems cp.pool (cp'.pool ++ lent)
      × (length cp'.pool + length lent ≡ cp.size)
pool_view cp net always_dial net' lent p full places start = absurd p
pool_view cp net (pooled cp') net' lent (size, same) full places start = (
  cp',
  refl,
  same,
  λ w. omega (
    arith,
    places w,
    start w,
    total-append w cp.pool net.closed,
    total-append w cp'.pool lent,
    ap (λ n. total w n.opened) same,
    ap (λ n. total w n.closed) same,
  ),
  omega (arith, full, size),
)

-- A full pool serves its clients with the connections that it began with. Whatever the clients do,
-- no connection is opened, and none is closed, since a `Return` always finds room in the channel;
-- each connection is in the pool or lent to one client; and those in the pool and those that are
-- lent are as many as the size of the pool, so that `Get` blocks only while all of them are lent.
pub pool_conserved :
    (cp : ConnPool) (net : Network) {t : Sessions}
    → SameItems net.opened (cp.pool ++ net.closed)
    → length cp.pool ≡ cp.size
    → Steps (opening (pooled cp) net) t
    → (cp' : ConnPool) × (t.connector ≡ pooled cp')
      × (t.net ≡ net)
      × SameItems cp.pool (cp'.pool ++ t.lent)
      × (length cp'.pool + length t.lent ≡ cp.size)
pool_conserved cp net {t} start full r =
    let first = opening-Inv (pooled cp) net start (omega (arith, full)) in
    let v = Steps-Inv r first in
    pool_view cp net t.connector t.net t.lent (Steps-Pooled cp net r first (refl, refl)) v.full
      v.places start

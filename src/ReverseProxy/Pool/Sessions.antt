-- ===== src/ReverseProxy/Pool/Sessions.antt =====
-- pkg/engine/engine.go, `GoroutineEngine`: clients borrow connections and give them back.
pub mod Accounting
pub mod Conservation
pub mod Overlap
use performance_handbook.Base.{
  ℕ, suc, ◌+◌, ◌-◌, ◌<◌, ◌≡◌, refl, ap, subst, Bool-cases, inl, inr, List, [], ◌∷◌, ◌++◌, Option,
  none, some, arith, length, length-append, ltb, true,
}
use performance_handbook.Base.Totals.{total, SameItems, total-append}
use performance_handbook.ReverseProxy.Pool.{
  Network, ConnPool, dial, get, give_back, Connector, always_dial, pooled, connector_get,
  connector_return,
}

-- The goroutines that `Serve` has started: how many stand before `backend.Get()`; the connections of
-- those that copy from the backend to the client; and those into which a goroutine still copies from
-- its client. `gone` counts the client connections that have been closed.
pub record Sessions : Type 0 where
  pub connector : Connector
  pub net : Network
  pub waiting : ℕ
  pub lent : List ℕ
  pub uploads : List ℕ
  pub gone : ℕ

pub data Step (s : Sessions) : Sessions → Type 0 where
  serve : Step s (record s { waiting = s.waiting + 1 })
  get_fails :
      {c : Connector} {net : Network}
      → 0 < s.waiting
      → connector_get s.connector s.net ≡ some (none, c, net)
      → Step s (record s { connector = c; net = net; waiting = s.waiting - 1; gone = s.gone + 1 })
  borrow :
      {conn : ℕ} {c : Connector} {net : Network}
      → 0 < s.waiting
      → connector_get s.connector s.net ≡ some (some conn, c, net)
      → Step s (record s {
        connector = c;
        net = net;
        waiting = s.waiting - 1;
        lent = s.lent ++ conn ∷ [];
        uploads = s.uploads ++ conn ∷ [];
      })
  -- The copy to the client ends: the deferred `Return` runs, then the deferred `Close` of the
  -- client.
  finish :
      (us : List ℕ) (conn : ℕ) (vs : List ℕ)
      → s.lent ≡ us ++ conn ∷ vs
      → Step s (record s {
        connector = (connector_return s.connector conn s.net).0;
        net = (connector_return s.connector conn s.net).1;
        lent = us ++ vs;
        gone = s.gone + 1;
      })
  -- The copy from the client ends.
  upload_ends :
      (us : List ℕ) (conn : ℕ) (vs : List ℕ)
      → s.uploads ≡ us ++ conn ∷ vs
      → Step s (record s { uploads = us ++ vs })

pub data Steps (s : Sessions) : Sessions → Type 0 where
  here : Steps s s
  next : {t u : Sessions} → Steps s t → Step t u → Steps s u

-- The engine at its start, with a connector and the network that built it.
abbrev pub opening : Connector → Network → Sessions
opening c net = record { connector = c; net = net; waiting = 0; lent = []; uploads = []; gone = 0 }

abbrev pub idle : Connector → List ℕ
idle always_dial = []
idle (pooled cp) = cp.pool

-- All `size` connections of a pool are in it or lent; other connectors have no pool.
abbrev pub Full : Connector → ℕ → Type 0
Full always_dial lent = Unit
Full (pooled cp) lent = length cp.pool + lent ≡ cp.size

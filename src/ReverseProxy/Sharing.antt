-- ===== src/ReverseProxy/Sharing.antt =====
-- Clients of cmd/client whose sessions (pkg/engine/engine.go, `GoroutineEngine`) share a pool of
-- connections to cmd/echo, as a transition system.
pub mod Starving
mod Tests
use performance_handbook.Base.{
  ℕ, suc, ◌+◌, ◌-◌, ◌<◌, ◌≡◌, Bool, true, false, List, [], ◌∷◌, ◌++◌, Bytes,
}
use performance_handbook.ReverseProxy.Exchange.{ended, Exchange, connected, Step}

-- `waiting` are the sessions before `backend.Get()`, and `idle` the connections in the pool. `served`
-- counts the sessions that have got a connection, `returned` those that have given theirs back, and
-- `breaks` the connections that have failed.
pub record Sharing : Type 0 where
  pub waiting : ℕ
  pub idle : ℕ
  pub sessions : List Exchange
  pub served : ℕ
  pub returned : ℕ
  pub breaks : ℕ

-- A pool that `NewConnPool` has filled
abbrev pub filled : ℕ → Sharing
filled size = record {
  waiting = 0;
  idle = size;
  sessions = [];
  served = 0;
  returned = 0;
  breaks = 0;
}

abbrev pub newly_broken : Bool → Bool → ℕ
newly_broken false true = 1
newly_broken false false = 0
newly_broken true b = 0

-- Every client sends the requests `reqs`.
module _ (reqs : List Bytes) where
  pub data Share (s : Sharing) : Sharing → Type 0 where
    serve : Share s (record s { waiting = s.waiting + 1 })
    -- `Get` of the pool, which blocks while it is empty
    borrow :
        {rest : ℕ}
        → 0 < s.waiting
        → s.idle ≡ suc rest
        → Share s (record s {
          waiting = s.waiting - 1;
          idle = rest;
          sessions = s.sessions ++ connected reqs ∷ [];
          served = s.served + 1;
        })
    exchange :
        (us vs : List Exchange) {e f : Exchange}
        → s.sessions ≡ us ++ e ∷ vs
        → Step e f
        → Share s (record s {
          sessions = us ++ f ∷ vs;
          breaks = s.breaks + newly_broken e.broken f.broken;
        })
    -- the deferred `Return`, when the copy to the client has ended
    give_back :
        (us vs : List Exchange) (e : Exchange)
        → s.sessions ≡ us ++ e ∷ vs
        → e.download ≡ ended
        → Share s (record s { idle = s.idle + 1; sessions = us ++ vs; returned = s.returned + 1 })

  pub data Reach (size : ℕ) : Sharing → Type 0 where
    begin : Reach size (filled size)
    later : {s t : Sharing} → Reach size s → Share s t → Reach size t

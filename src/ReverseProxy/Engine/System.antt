-- ===== src/ReverseProxy/Engine/System.antt =====
-- pkg/engine/engine.go, `EpollEngine` with its goroutines: the calls of `Serve` and the one that
-- handles events, whose accesses to the table of connections interleave, as a transition system. A
-- descriptor is a number that the kernel may give again once it has been closed.
pub mod Invariant
pub mod Race
mod Tests
use performance_handbook.Base.{ℕ, ◌≡◌, ◌≢◌, ◌⊎◌, Bool, true, false, Option, none, some}
use mathlib.Core.Logic.{ite}
use native.Mathlib.Decide.{ℕ_discrete}
use performance_handbook.ReverseProxy.Engine.{ProxyConn, put}

-- Where the goroutine of `Loop` stands: at the next event; behind the lookup of `handleEvent`; in
-- `closeConn`, between the calls of `Close` and the removal from the table.
pub data Looping : Type 0 where
  waiting : Looping
  found : ProxyConn → Looping
  closing : ProxyConn → Looping

-- `conns` is the table; `in_hand` holds, in the same way, the pairs for which a call of `Serve` has
-- its descriptors and has not entered them; `open_fds` are those that the kernel has open.
-- `finalized` are those that the finalizer of an `os.File` has closed, until they are removed or
-- taken again.
pub record System : Type 0 where
  pub conns : ℕ → Option ProxyConn
  pub in_hand : ℕ → Option ProxyConn
  pub open_fds : ℕ → Bool
  pub finalized : ℕ → Bool
  pub looping : Looping

unfoldable pub first_system : System
first_system = record {
  conns = λ fd. none;
  in_hand = λ fd. none;
  open_fds = λ fd. false;
  finalized = λ fd. false;
  looping = waiting;
}

-- Both ends of a pair
abbrev pub put_both : (ℕ → Option ProxyConn) → ProxyConn → Option ProxyConn → ℕ → Option ProxyConn
put_both conns pc entry = put (put conns pc.client_fd entry) pc.backend_fd entry

abbrev pub set_both : (ℕ → Bool) → ProxyConn → Bool → ℕ → Bool
set_both open_fds pc b fd =
    ite (ℕ_discrete pc.backend_fd fd) b (ite (ℕ_discrete pc.client_fd fd) b (open_fds fd))

abbrev pub set : (ℕ → Bool) → ℕ → Bool → ℕ → Bool
set open_fds fd b other = ite (ℕ_discrete fd other) b (open_fds other)

abbrev pub IsClosing : Looping → Type 0
IsClosing looping = (pc : ProxyConn) × (looping ≡ closing pc)

-- One step; what the calls of `EpollCtl` answer only decides which events come, and those of `Read`
-- and `Write` whether the pair that was found is kept or closed. `fdFromConn` keeps the number of a
-- descriptor and drops the `os.File` that owns it, whose finalizer may close the number at any time
-- later, whatever it is then. If `reuse` is false, no number is taken while `closeConn` is between
-- its calls of `Close` and the removal, or when a finalizer has closed it and it was not removed.
pub data Step (reuse : Bool) (s : System) : System → Type 0 where
  take_fds :
      (pc : ProxyConn)
      → pc.client_fd ≢ pc.backend_fd
      → s.open_fds pc.client_fd ≡ false
      → s.open_fds pc.backend_fd ≡ false
      → (reuse ≡ true)
        ⊎ ((¬ IsClosing s.looping)
            × (s.finalized pc.client_fd ≡ false)
            × (s.finalized pc.backend_fd ≡ false))
      → Step reuse s (record s {
        open_fds = set_both s.open_fds pc true;
        finalized = set_both s.finalized pc false;
        in_hand = put_both s.in_hand pc (some pc);
      })
  finalize :
      (fd : ℕ)
      → s.open_fds fd ≡ true
      → Step reuse s
          (record s { open_fds = set s.open_fds fd false; finalized = set s.finalized fd true })
  enter :
      (pc : ProxyConn)
      → s.in_hand pc.client_fd ≡ some pc
      → Step reuse s
          (record s { in_hand = put_both s.in_hand pc none; conns = put_both s.conns pc (some pc) })
  look_up :
      (fd : ℕ) (pc : ProxyConn)
      → s.looping ≡ waiting
      → s.conns fd ≡ some pc
      → Step reuse s (record s { looping = found pc })
  keep : {pc : ProxyConn} → s.looping ≡ found pc → Step reuse s (record s { looping = waiting })
  close_fds :
      {pc : ProxyConn}
      → s.looping ≡ found pc
      → Step reuse s (record s { open_fds = set_both s.open_fds pc false; looping = closing pc })
  remove :
      {pc : ProxyConn}
      → s.looping ≡ closing pc
      → Step reuse s (record s {
        conns = put_both s.conns pc none;
        finalized = set_both s.finalized pc false;
        looping = waiting;
      })

pub data Reach (reuse : Bool) : System → Type 0 where
  begin : Reach reuse first_system
  later : {s t : System} → Reach reuse s → Step reuse s t → Reach reuse t

-- ===== src/ReverseProxy/Engine/System/Race.antt =====
-- What happens when a closed descriptor is given again before `closeConn` has removed it.
use performance_handbook.Base.{ℕ, ◌≡◌, ◌≢◌, inl, refl, sym, true, false, none, some, arith}
use performance_handbook.ReverseProxy.Engine.{ProxyConn}
use performance_handbook.ReverseProxy.Engine.System.{
  waiting, closing, System, take_fds, enter, remove, Reach, later,
}

-- If `closeConn` has closed the descriptors of `pc`, and `Serve` then gets the number of the
-- client's again, for a pair with another free descriptor, and enters it before the removal, the
-- engine reaches a state, ready for the next event, in which the new connection is in the table at
-- one end only.
pub half_removed :
    (s : System) (pc : ProxyConn) (backend : ℕ)
    → Reach true s
    → s.looping ≡ closing pc
    → s.open_fds pc.client_fd ≡ false
    → s.open_fds backend ≡ false
    → backend ≢ pc.client_fd
    → backend ≢ pc.backend_fd
    → (t : System) × Reach true t
      × (t.looping ≡ waiting)
      × (t.conns pc.client_fd ≡ none)
      × (t.conns backend ≡ some (record { client_fd = pc.client_fd; backend_fd = backend }))
      × (t.open_fds pc.client_fd ≡ true)
half_removed s pc backend r w c b apart other =
    let q : ProxyConn = record { client_fd = pc.client_fd; backend_fd = backend } in
    (
      _,
      later
          (later (later r (take_fds q (λ e. apart (sym e)) c b (inl refl)))
            (enter q (ground arith)))
          (remove w),
      refl,
      ground arith,
      ground arith,
      ground arith,
    )

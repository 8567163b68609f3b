-- ===== src/ReverseProxy/Engine.antt =====
-- pkg/engine/engine.go, `EpollEngine`: pairs of sockets under one epoll descriptor.
pub mod Pairs
pub mod Forwarding
pub mod Leases
pub mod System
mod Tests
use mathlib.Core.Logic.{ite}
use native.Mathlib.Decide.{ℕ_discrete}
use performance_handbook.Base.{
  ℕ, zero, suc, ◌+◌, Bool, true, false, List, [], ◌∷◌, ◌++◌, Option, none, some, Bytes, take, ◌==◌,
  if◌then◌else◌, ◌>>=◌,
}
use performance_handbook.ReverseProxy.Pool.{Network, Connector, connector_get}

-- `ProxyConn`, without its two buffers: each is written and read within one call of `handleEvent`.
pub record ProxyConn : Type 0 where
  pub client_fd : ℕ
  pub backend_fd : ℕ

-- `conns`, and what the engine has done to the kernel's objects: the descriptors that it has closed
-- and those that it has added to the epoll descriptor, in order, and the bytes that went into each.
pub record EpollEngine : Type 0 where
  pub conns : ℕ → Option ProxyConn
  pub closed : List ℕ
  pub watched : List ℕ
  pub written : List (ℕ × Bytes)

-- `NewEpollEngine`, where `EpollCreate1` succeeds
pub new_epoll_engine : EpollEngine
new_epoll_engine = record { conns = λ fd. none; closed = []; watched = []; written = [] }

-- `conns[fd] = entry`, and `delete(conns, fd)` with `none`
abbrev pub put : (ℕ → Option ProxyConn) → ℕ → Option ProxyConn → ℕ → Option ProxyConn
put conns fd entry other = ite (ℕ_discrete fd other) entry (conns other)

-- What `Read` of a descriptor answers: an error, or the bytes, none at the end of the stream.
pub data ReadResult : Type 0 where
  read_error : ReadResult
  bytes : Bytes → ReadResult

-- What `Write` answers: an error, or how many bytes it took.
pub data WriteResult : Type 0 where
  write_error : WriteResult
  took : ℕ → WriteResult

-- `closeConn`
pub close_conn : EpollEngine → ProxyConn → EpollEngine
close_conn e pc = record e {
  conns = put (put e.conns pc.client_fd none) pc.backend_fd none;
  closed = e.closed ++ pc.client_fd ∷ pc.backend_fd ∷ [];
}

-- What follows the read in `handleEvent`, for the bytes that were read.
pub forward : EpollEngine → ProxyConn → ℕ → Bytes → WriteResult → EpollEngine
forward e pc dst [] written = close_conn e pc
forward e pc dst (b ∷ bs) write_error = close_conn e pc
forward e pc dst (b ∷ bs) (took n) = record e { written = e.written ++ (dst, take n (b ∷ bs)) ∷ [] }

-- The peer of `fd`: where `handleEvent` sends what it reads.
pub destination : ProxyConn → ℕ → ℕ
destination pc fd = if fd == pc.client_fd then pc.backend_fd else pc.client_fd

pub transfer : EpollEngine → ProxyConn → ℕ → ReadResult → WriteResult → EpollEngine
transfer e pc dst read_error write = close_conn e pc
transfer e pc dst (bytes bs) write = forward e pc dst bs write

-- `handleEvent`; `readable` says whether the event has `EPOLLIN`, and `read` and `write` are what
-- the two system calls answer, if they are made.
pub handle_event : EpollEngine → ℕ → Bool → ReadResult → WriteResult → EpollEngine
unfolding close_conn forward destination transfer
handle_event e fd readable read write = elim (e.conns fd) [
  | none ↦ e
  | some pc ↦ if readable then transfer e pc (destination pc fd) read write else e
]

-- What the calls of `Serve` answer: the descriptors of `fdFromConn`, and whether `EpollCtl` adds
-- each.
pub record Answers : Type 0 where
  pub client : Option ℕ
  pub backend : Option ℕ
  pub adds_client : Bool
  pub adds_backend : Bool

-- `Serve` behind the two calls of `fdFromConn`; the `Bool` says whether it returns no error.
pub register : EpollEngine → ℕ → ℕ → Bool → Bool → EpollEngine × Bool
register e client backend adds_client adds_backend =
    let pc : ProxyConn = record { client_fd = client; backend_fd = backend } in
    let kept : EpollEngine = record e {
      conns = put (put e.conns client (some pc)) backend (some pc);
    } in
    if adds_client
    then (if adds_backend
        then (record kept { watched = e.watched ++ client ∷ backend ∷ [] }, true)
        else (record kept { watched = e.watched ++ client ∷ [] }, false))
    else (kept, false)

pub register_both : EpollEngine → Answers → Option ℕ → Option ℕ → EpollEngine × Bool
unfolding register
register_both e a none backend = (e, false)
register_both e a (some client) none = (e, false)
register_both e a (some client) (some backend) =
    register e client backend a.adds_client a.adds_backend

-- The engine, and the connector that it serves from.
pub record Proxy : Type 0 where
  pub engine : EpollEngine
  pub connector : Connector
  pub net : Network

-- `Serve`; `none` when `backend.Get()` does not return.
unfoldable pub serve : Proxy → Answers → Option (Proxy × Bool)
unfolding register_both
serve p a = do
  answer ← connector_get p.connector p.net
  elim answer.0 [
    | none ↦ some (record p { connector = answer.1; net = answer.2 }, false)
    | some conn ↦
        let (e, fine) = register_both p.engine a a.client a.backend in
        some (record { engine = e; connector = answer.1; net = answer.2 }, fine)
  ]

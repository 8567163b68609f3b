-- ===== src/ReverseProxy/Command.antt =====
-- cmd/proxy/main.go: what the flags choose, and the loop that accepts clients.
pub mod Exhaustion
mod Tests
use Prim.Native.String.{String}
use text.Mathlib.Text.{◌==◌ as str_eq}
use performance_handbook.Base.{
  ℕ, ◌+◌, Bool, true, false, List, [], ◌∷◌, Option, none, some, if◌then◌else◌, ◌>>=◌,
}
use performance_handbook.ReverseProxy.Pool.{Network, Connector, resolve_connector}
use performance_handbook.ReverseProxy.Engine.{
  EpollEngine, new_epoll_engine, ReadResult, WriteResult, handle_event, Answers, Proxy, serve,
}

-- The implementations of `Engine`; for the first, how many sessions it has started.
pub data Engine : Type 0 where
  goroutine_engine : ℕ → Engine
  epoll_engine : EpollEngine → Engine

-- A flag that is not given has its default.
pub flag : Option String → String → String
flag none default = default
flag (some given) default = given

-- `resolveEngine`, where `creates` says whether `EpollCreate1` succeeds; the outer `none` is the
-- exit of the process, and the inner one the error result.
pub resolve_engine : String → Bool → Option (Option Engine)
resolve_engine engine_type creates =
    if str_eq engine_type "goroutine"
    then some (some (goroutine_engine 0))
    else if str_eq engine_type "epoll"
    then some (if creates then some (epoll_engine new_epoll_engine) else none)
    else none

-- The program in its accept loop
pub record Program : Type 0 where
  pub engine : Engine
  pub backend : Connector
  pub net : Network

abbrev listening : Bool → Connector → Network → Option Engine → Option Program
listening listens backend net none = none
listening listens backend net (some engine) =
    if listens then some (record { engine = engine; backend = backend; net = net }) else none

-- `main` up to the loop; `none` when it exits, or a dial does not return.
pub start : Option String → Option String → Network → Bool → Bool → Option Program
unfolding resolve_connector resolve_engine flag
start connector_flag engine_flag net creates listens = do
  connected ← resolve_connector (flag connector_flag "dial") net
  elim connected.0 [
    | none ↦ none
    | some backend ↦ do
      engine ← resolve_engine (flag engine_flag "goroutine") creates
      listening listens backend connected.1 engine
  ]

-- What comes to the program: an error of `Accept`; a client, with the answers of the calls that
-- `Serve` makes for it; or an event of the epoll descriptor, which the loop of the engine handles.
pub data Input : Type 0 where
  accept_error : Input
  client : Answers → Input
  event : ℕ → Bool → ReadResult → WriteResult → Input

-- `engine.Serve`, whose error the loop drops; `none` when it does not return.
pub serve_client : Program → Engine → Answers → Option Program
unfolding serve
serve_client p (goroutine_engine sessions) a =
    some (record p { engine = goroutine_engine (sessions + 1) })
serve_client p (epoll_engine e) a = do
  served ← serve (record { engine = e; connector = p.backend; net = p.net }) a
  some (record {
    engine = epoll_engine served.0.engine;
    backend = served.0.connector;
    net = served.0.net;
  })

pub on_event : Engine → ℕ → Bool → ReadResult → WriteResult → Engine
on_event (goroutine_engine sessions) fd readable read write = goroutine_engine sessions
on_event (epoll_engine e) fd readable read write =
    epoll_engine (handle_event e fd readable read write)

-- The loop, for what comes to the program, in order; `none` when it does not accept any more.
pub accept_loop : Program → List Input → Option Program
unfolding serve_client on_event
accept_loop p [] = some p
accept_loop p (accept_error ∷ more) = accept_loop p more
accept_loop p (client a ∷ more) = do p' ← serve_client p p.engine a; accept_loop p' more
accept_loop p (event fd readable read write ∷ more) =
    accept_loop (record p { engine = on_event p.engine fd readable read write }) more

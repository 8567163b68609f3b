-- ===== src/ReverseProxy/Command/Tests.antt =====
-- Eleven clients, and the end of the first one's stream after its arrival.
use performance_handbook.Base.{◌≡◌, refl, true, false, List, [], ◌∷◌, none, some, replicate}
use performance_handbook.ReverseProxy.Pool.{Network}
use performance_handbook.ReverseProxy.Pool.Filling.{answers}
use performance_handbook.ReverseProxy.Engine.{bytes, took, Answers}
use performance_handbook.ReverseProxy.Command.{
  goroutine_engine, Input, client, event, flag, resolve_engine,
}
use performance_handbook.ReverseProxy.Command.Exhaustion.{Outcome, run_proxy, pool_serves_ten}
use performance_handbook.Base.{ℕ}

abbrev ten_conns : List ℕ
ten_conns = 11 ∷ 12 ∷ 13 ∷ 14 ∷ 15 ∷ 16 ∷ 17 ∷ 18 ∷ 19 ∷ 20 ∷ []

abbrev backend_up : Network
backend_up = record { dials = answers ten_conns (none ∷ []); opened = []; closed = [] }

abbrev arrival : Answers
arrival = record { client = some 3; backend = some 4; adds_client = true; adds_backend = true }

abbrev eleven : List Input
eleven = client arrival ∷ event 3 true (bytes []) (took 0) ∷ replicate 10 (client arrival)

unknown_engine : resolve_engine "threads" true ≡ none
unfolding resolve_engine
unknown_engine = refl

default_engine : resolve_engine (flag none "goroutine") false ≡ some (some (goroutine_engine 0))
unfolding resolve_engine flag
default_engine = refl

pool_serves_ten_example : Outcome 10 eleven (run_proxy backend_up eleven)
pool_serves_ten_example = pool_serves_ten ten_conns (none ∷ []) backend_up eleven refl refl

-- ===== src/FsMonitor/Logging.antt =====
-- What is logged.
use performance_handbook.Base.{◌≡◌, refl, ap, Bool, true, List, [], ◌∷◌, ◌++◌}
use performance_handbook.FsMonitor.{
  Received, event, problem, closed, Logged, detected, reported, run_tracker,
}

-- The entry of each event and each error
abbrev pub entries : List Received → List Logged
entries [] = []
entries (event e ∷ more) = detected e ∷ entries more
entries (problem p ∷ more) = reported p ∷ entries more
entries (closed ∷ more) = entries more

abbrev pub IsOpen : List Received → Type 0
IsOpen [] = Unit
IsOpen (closed ∷ more) = ⊥
IsOpen (event e ∷ more) = IsOpen more
IsOpen (problem p ∷ more) = IsOpen more

-- Everything that is received before one of the channels is closed is logged, in order, and nothing
-- else; and then `Run` returns.
pub logs_until_closed :
    (before after : List Received)
    → IsOpen before
    → run_tracker (before ++ closed ∷ after) ≡ (entries before, true)
unfolding run_tracker
logs_until_closed [] after h = refl
logs_until_closed (closed ∷ more) after h = absurd h
logs_until_closed (event e ∷ more) after h =
    ap (λ (r : List Logged × Bool). (detected e ∷ r.0, r.1)) (logs_until_closed more after h)
logs_until_closed (problem p ∷ more) after h =
    ap (λ (r : List Logged × Bool). (reported p ∷ r.0, r.1)) (logs_until_closed more after h)

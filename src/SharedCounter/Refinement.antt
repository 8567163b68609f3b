-- ===== src/SharedCounter/Refinement.antt =====
-- Every mechanism is a counter whose increments are atomic.
use performance_handbook.Base.{ℕ, ◌≡◌, ◌⊎◌, inl, inr, refl, sym, ap, subst, All}
use performance_handbook.SharedCounter.{
  Mode, add_one, Worker, Shared, start, Move, add_alone, lock, load, store, add_inside, unlock,
  Step, step, Reach, begin, later, Owned, first_owned, OwnedStep, hand, add, OwnedReach,
  begin_owned, later_owned, Mechanism, shared, owned,
}
use performance_handbook.SharedCounter.Exclusion.{Reach-Inv, Fresh, All-middle}

-- The specification: a counter that starts at 0, with one operation.
pub data Atomic : ℕ → Type 0 where
  at_start : Atomic 0
  increment : {c : ℕ} → Atomic c → Atomic (add_one c)

-- A step of an implementation: it makes one increment, or none that can be seen.
abbrev pub Refines : ℕ → ℕ → Type 0
Refines before after = (after ≡ before) ⊎ (after ≡ add_one before)

-- The states of a mechanism that can be reached, its steps, and the counter in a state.
abbrev pub StateOf : Mechanism → Type 0
StateOf (shared mode n) = Shared
StateOf (owned n) = Owned

abbrev pub ReachOf : (m : Mechanism) → StateOf m → Type 0
ReachOf (shared mode n) s = Reach mode n s
ReachOf (owned n) s = OwnedReach n s

abbrev pub StepOf : (m : Mechanism) → StateOf m → StateOf m → Type 0
StepOf (shared mode n) s t = Step mode s t
StepOf (owned n) s t = OwnedStep n s t

abbrev pub counter_of : (m : Mechanism) → StateOf m → ℕ
counter_of (shared mode n) s = s.counter
counter_of (owned n) s = s.counter

-- What has been read is still current when it is written.
Move-Refines :
    (mode : Mode) {s t : Shared} {w w' : Worker}
    → Fresh s.counter w
    → Move mode s w t w'
    → Refines s.counter t.counter
Move-Refines mode fresh (add_alone m) = inr refl
Move-Refines mode fresh (lock m free) = inl refl
Move-Refines mode fresh (load m) = inl refl
Move-Refines mode fresh store = inr (ap add_one fresh)
Move-Refines mode fresh (add_inside m) = inr refl
Move-Refines mode fresh unlock = inl refl

step-Refines :
    (m : Mechanism) (s t : StateOf m)
    → ReachOf m s
    → StepOf m s t
    → Refines (counter_of m s) (counter_of m t)
step-Refines (shared mode n) s t r (step us vs {w} at move) =
    Move-Refines mode
      (All-middle s.counter us vs w (subst (All (Fresh s.counter)) at (Reach-Inv mode n r).fresh)).1
      move
step-Refines (owned n) s t r (hand some_worker e) = inl refl
step-Refines (owned n) s t r (add e) = inr refl

spec_step : {before after : ℕ} → Atomic before → Refines before after → Atomic after
spec_step a (inl same) = subst Atomic (sym same) a
spec_step a (inr more) = subst Atomic (sym more) (increment a)

shared_refines : (mode : Mode) (n : ℕ) {s : Shared} → Reach mode n s → Atomic s.counter
unfolding start
shared_refines mode n begin = at_start
shared_refines mode n (later {s} {t} r st) =
    spec_step (shared_refines mode n r) (step-Refines (shared mode n) s t r st)

owned_refines : (n : ℕ) {s : Owned} → OwnedReach n s → Atomic s.counter
unfolding first_owned
owned_refines n begin_owned = at_start
owned_refines n (later_owned {s} {t} r st) =
    spec_step (owned_refines n r) (step-Refines (owned n) s t r st)

reach_refines : (m : Mechanism) (s : StateOf m) → ReachOf m s → Atomic (counter_of m s)
reach_refines (shared mode n) s r = shared_refines mode n r
reach_refines (owned n) s r = owned_refines n r

-- Every mechanism, with any number of goroutines and in any schedule, refines the counter with
-- atomic increments: in a state that it reaches, the counter is one that the specification reaches,
-- and each step from there leaves it or increments it by one.
pub mechanism-Refines :
    (m : Mechanism) (s t : StateOf m)
    → ReachOf m s
    → StepOf m s t
    → Atomic (counter_of m s) × Refines (counter_of m s) (counter_of m t)
mechanism-Refines m s t r st = (reach_refines m s r, step-Refines m s t r st)

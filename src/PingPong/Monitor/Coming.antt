-- ===== src/PingPong/Monitor/Coming.antt =====
-- Every turn comes.
use native.Mathlib.Decide.{ℕ_discrete}
use performance_handbook.Base.{ℕ, ◌<◌, ◌≡◌, refl, sym, ap, ◌∙◌, [], ◌∷◌, ◌++◌, Option, none, some}
use performance_handbook.PingPong.Monitor.{
  Held, testing, adding, added, turned, leaving, asleep, locking, woken, Outside, Monitor,
  first_monitor, Step, lock, wait, lock_again, pass, add_one, turn_over, broadcast, unlock, Steps,
  stay, go,
}
use performance_handbook.PingPong.Monitor.Refining.{
  turn_of, Inv, entitled_at, awake_at, Step-Inv, Reach-Inv,
}

-- The goroutines can go on to a state in which `id` is the next that has counted.
abbrev pub Comes : ℕ → Monitor → ℕ → Type 0
Comes n s id = (t : Monitor) × Steps n s t × (t.turns.order ≡ s.turns.order ++ id ∷ [])

module _ (n : ℕ) (some_n : 0 < n) where
  Steps-join : {s t u : Monitor} → Steps n s t → Steps n t u → Steps n s u
  Steps-join ss stay = ss
  Steps-join ss (go ts st) = go (Steps-join ss ts) st

  after :
      {s t : Monitor} (id : ℕ)
      → Step n s t
      → t.turns.order ≡ s.turns.order
      → Comes n t id
      → Comes n s id
  after id st same (u, ts, e) =
      (u, Steps-join (go stay st) ts, e ∙ ap (λ order. order ++ id ∷ []) same)

  counts : {s : Monitor} {id : ℕ} → s.holder ≡ some (id, adding) → Comes n s id
  counts e = (_, go stay (add_one e), refl)

  tests : {s : Monitor} → s.holder ≡ some (s.turns.turn, testing) → Comes n s s.turns.turn
  tests e = after _ (pass e refl) refl (counts refl)

  -- The mutex is free, and the goroutine whose turn it is does not sleep.
  takes :
      {s : Monitor} (place : Outside)
      → s.places s.turns.turn ≡ place
      → s.holder ≡ none
      → Inv n s
      → Comes n s s.turns.turn
  takes {s} locking p e v = after _ (lock s.turns.turn v.exists e p) refl (tests refl)
  takes {s} woken p e v = after _ (lock_again s.turns.turn v.exists e p) refl (tests refl)
  takes asleep p e v = absurd (awake_at n some_n e v p)

  free : {s : Monitor} → s.holder ≡ none → Inv n s → Comes n s s.turns.turn
  free {s} e v = takes (s.places s.turns.turn) refl e v

  leaves : {s : Monitor} {id : ℕ} → s.holder ≡ some (id, leaving) → Inv n s → Comes n s s.turns.turn
  leaves e v = after _ (unlock e) refl (free refl (Step-Inv n some_n (unlock e) v))

  wakes : {s : Monitor} {id : ℕ} → s.holder ≡ some (id, turned) → Inv n s → Comes n s s.turns.turn
  wakes e v = after _ (broadcast e) refl (leaves refl (Step-Inv n some_n (broadcast e) v))

  comes :
      {s : Monitor} (h : Option (ℕ × Held))
      → s.holder ≡ h
      → Inv n s
      → Comes n s (turn_of n h s.turns.turn)
  comes none e v = free e v
  comes {s} (some (id, testing)) e v = elim (ℕ_discrete s.turns.turn id) [
    | yes mine ↦ tests (e ∙ ap (λ i. some (i, testing)) (sym mine))
    | no apart ↦ after _ (wait e apart) refl (free refl (Step-Inv n some_n (wait e apart) v))
  ]
  comes {s} (some (id, adding)) e v =
      let mine : s.turns.turn ≡ id = entitled_at n some_n e v in
      counts (e ∙ ap (λ i. some (i, adding)) (sym mine))
  comes (some (id, added)) e v =
      after _ (turn_over e) refl (wakes refl (Step-Inv n some_n (turn_over e) v))
  comes (some (id, turned)) e v = wakes e v
  comes (some (id, leaving)) e v = leaves e v

  -- For at least one goroutine: no state that the goroutines reach is a deadlock, and from each they
  -- can go on so that the next to count is the one whose turn it is.
  pub turn_comes :
      {s : Monitor} → Steps n first_monitor s → Comes n s (turn_of n s.holder s.turns.turn)
  turn_comes {s} ss = comes s.holder refl (Reach-Inv n some_n ss)

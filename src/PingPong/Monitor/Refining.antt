-- ===== src/PingPong/Monitor/Refining.antt =====
-- The goroutines, seen through `TakeTurn`.
use performance_handbook.Base.{
  ℕ, ◌+◌, ◌%◌, ◌<◌, ◌≡◌, ◌≢◌, sym, subst, ◌∙◌, Option, none, some, arith,
}
use performance_handbook.PingPong.{Turns, hand_over, first_turn, Turning, begin, later}
use performance_handbook.PingPong.Monitor.{
  Held, testing, adding, added, turned, leaving, asleep, locking, woken, Outside, Monitor,
  first_monitor, put, wake, Step, lock, wait, lock_again, pass, add_one, turn_over, broadcast,
  unlock, Steps, stay, go,
}

-- `turn` as it will be when the holder has assigned to it
abbrev pub turn_of : ℕ → Option (ℕ × Held) → ℕ → ℕ
turn_of n none turn = turn
turn_of n (some (id, testing)) turn = turn
turn_of n (some (id, adding)) turn = turn
turn_of n (some (id, added)) turn = (turn + 1) % n
turn_of n (some (id, turned)) turn = turn
turn_of n (some (id, leaving)) turn = turn

abbrev pub view : ℕ → Monitor → Turns
view n s = record s.turns { turn = turn_of n s.holder s.turns.turn }

-- The holder has its turn where it has passed the test.
abbrev pub MayCount : Option (ℕ × Held) → ℕ → Type 0
MayCount none turn = Unit
MayCount (some (id, testing)) turn = Unit
MayCount (some (id, adding)) turn = turn ≡ id
MayCount (some (id, added)) turn = turn ≡ id
MayCount (some (id, turned)) turn = Unit
MayCount (some (id, leaving)) turn = Unit

-- The goroutine whose turn it is does not sleep, but until the broadcast.
abbrev pub NotLost : Option (ℕ × Held) → Outside → Type 0
NotLost none place = place ≢ asleep
NotLost (some (id, testing)) place = place ≢ asleep
NotLost (some (id, adding)) place = Unit
NotLost (some (id, added)) place = Unit
NotLost (some (id, turned)) place = Unit
NotLost (some (id, leaving)) place = place ≢ asleep

pub record Inv (n : ℕ) (s : Monitor) : Type 0 where
  pub refines : Turning n (view n s)
  pub entitled : MayCount s.holder s.turns.turn
  pub awake : NotLost s.holder (s.places s.turns.turn)
  pub exists : s.turns.turn < n

wake-awake : (place : Outside) → wake place ≢ asleep
wake-awake locking e = cc
wake-awake asleep e = cc
wake-awake woken e = cc

put-other :
    (places : ℕ → Outside) (id other : ℕ) (place : Outside)
    → other ≢ id
    → put places id place other ≡ places other
put-other places id other place apart = ground arith

put-locking :
    (places : ℕ → Outside) (id other : ℕ)
    → places other ≢ asleep
    → put places id locking other ≢ asleep
put-locking places id other awake = ground arith

module _ (n : ℕ) (some_n : 0 < n) where
  -- The invariant, with the holder that is known
  refines_at :
      {s : Monitor} {h : Option (ℕ × Held)}
      → s.holder ≡ h
      → Inv n s
      → Turning n (record s.turns { turn = turn_of n h s.turns.turn })
  refines_at {s} e v =
      subst (λ h. Turning n (record s.turns { turn = turn_of n h s.turns.turn })) e v.refines

  pub entitled_at :
      {s : Monitor} {h : Option (ℕ × Held)} → s.holder ≡ h → Inv n s → MayCount h s.turns.turn
  entitled_at {s} e v = subst (λ h. MayCount h s.turns.turn) e v.entitled

  pub awake_at :
      {s : Monitor} {h : Option (ℕ × Held)}
      → s.holder ≡ h
      → Inv n s
      → NotLost h (s.places s.turns.turn)
  awake_at {s} e v = subst (λ h. NotLost h (s.places s.turns.turn)) e v.awake

  pub Step-Inv : {s t : Monitor} → Step n s t → Inv n s → Inv n t
  Step-Inv (lock id below e p) v = record {
    refines = refines_at e v;
    entitled = tt;
    awake = awake_at e v;
    exists = v.exists;
  }
  Step-Inv {s} (wait {id} e apart) v = record {
    refines = refines_at e v;
    entitled = tt;
    awake = λ slept. awake_at e v (sym (put-other s.places id s.turns.turn asleep apart) ∙ slept);
    exists = v.exists;
  }
  Step-Inv (lock_again id below e p) v = record {
    refines = refines_at e v;
    entitled = tt;
    awake = awake_at e v;
    exists = v.exists;
  }
  Step-Inv (pass e mine) v = record {
    refines = refines_at e v;
    entitled = mine;
    awake = tt;
    exists = v.exists;
  }
  Step-Inv {s} (add_one {id} e) v =
      let mine : s.turns.turn ≡ id = entitled_at e v in
      record {
        refines = later (refines_at e v) (hand_over id (omega (arith, mine, v.exists)) mine);
        entitled = mine;
        awake = tt;
        exists = v.exists;
      }
  Step-Inv {s} (turn_over e) v = record {
    refines = refines_at e v;
    entitled = tt;
    awake = tt;
    exists = omega arith;
  }
  Step-Inv {s} (broadcast e) v = record {
    refines = refines_at e v;
    entitled = tt;
    awake = wake-awake (s.places s.turns.turn);
    exists = v.exists;
  }
  Step-Inv {s} (unlock {id} e) v = record {
    refines = refines_at e v;
    entitled = tt;
    awake = put-locking s.places id s.turns.turn (awake_at e v);
    exists = v.exists;
  }

  Steps-Inv : {s t : Monitor} → Steps n s t → Inv n s → Inv n t
  Steps-Inv stay v = v
  Steps-Inv (go ss st) v = Step-Inv st (Steps-Inv ss v)

  first-Inv : Inv n first_monitor
  unfolding first_monitor first_turn
  first-Inv = record { refines = begin; entitled = tt; awake = λ e. cc; exists = some_n }

  pub Reach-Inv : {s : Monitor} → Steps n first_monitor s → Inv n s
  Reach-Inv ss = Steps-Inv ss first-Inv

  -- For at least one goroutine: however the goroutines take the mutex, wait and wake, all that they
  -- do to `turn`, `counter` and the order of the holders are rounds of `TakeTurn`, where `turn` is
  -- seen as already assigned between `AddInt64` and the assignment.
  pub monitor-Refines : {s : Monitor} → Steps n first_monitor s → Turning n (view n s)
  monitor-Refines ss = (Reach-Inv ss).refines

-- ===== src/SharedCounter/Exclusion.antt =====
-- No increment is lost, since one goroutine at a time is between `Lock` and `Unlock`.
use performance_handbook.Base.{
  ℕ, zero, suc, ◌+◌, ◌%◌, ◌≤◌, ◌≡◌, refl, ap, subst, Bool, true, false, List, [], ◌∷◌, ◌++◌, arith,
  replicate, All, All-append,
}
use performance_handbook.Base.Totals.{total, total-append}
use performance_handbook.SharedCounter.{
  modulus, Mode, atomic_add, add_one, Worker, outside, entered, loaded, stored, Shared, start, Move,
  add_alone, lock, load, store, add_inside, unlock, step, Reach, begin, later,
}

abbrev pub inside : Worker → ℕ
inside outside = 0
inside entered = 1
inside (loaded v) = 1
inside stored = 1

abbrev pub flag : Bool → ℕ
flag true = 1
flag false = 0

-- What has been read is still what the counter holds.
abbrev pub Fresh : ℕ → Worker → Type 0
Fresh c outside = Unit
Fresh c entered = Unit
Fresh c (loaded v) = v ≡ c
Fresh c stored = Unit

pub record Inv (s : Shared) : Type 0 where
  pub one : total inside s.workers ≡ flag s.locked
  pub fresh : All (Fresh s.counter) s.workers
  pub exact : s.counter ≡ s.finished % modulus

pub All-middle :
    (c : ℕ) (us vs : List Worker) (w : Worker)
    → All (Fresh c) (us ++ w ∷ vs)
    → All (Fresh c) us × Fresh c w × All (Fresh c) vs
All-middle c [] vs w h = (tt, h.0, h.1)
All-middle c (u ∷ us) vs w h = let (a, b, d) = All-middle c us vs w h.1 in ((h.0, a), b, d)

-- Those who are outside have read nothing.
outside-Fresh : (c : ℕ) (ws : List Worker) → total inside ws ≡ 0 → All (Fresh c) ws
outside-Fresh c [] e = tt
outside-Fresh c (outside ∷ ws) e = (tt, outside-Fresh c ws (omega (arith, e)))
outside-Fresh c (entered ∷ ws) e = absurd (omega (arith, e))
outside-Fresh c (loaded v ∷ ws) e = absurd (omega (arith, e))
outside-Fresh c (stored ∷ ws) e = absurd (omega (arith, e))

flag_bound : (b : Bool) → flag b ≤ 1
flag_bound true = omega arith
flag_bound false = omega arith

-- The invariant, seen from one worker and the others.
around :
    (s : Shared) (us vs : List Worker) (w : Worker)
    → s.workers ≡ us ++ w ∷ vs
    → Inv s
    → (total inside us + inside w + total inside vs ≡ flag s.locked)
      × All (Fresh s.counter) us
      × Fresh s.counter w
      × All (Fresh s.counter) vs
around s us vs w at v =
    let (a, b, d) = All-middle s.counter us vs w (subst (All (Fresh s.counter)) at v.fresh) in
    (omega (arith, total-append inside us (w ∷ vs), v.one, ap (total inside) at), a, b, d)

module _ (mode : Mode) where
  -- Without a mutex it is never locked.
  abbrev pub Open : Shared → Type 0
  Open s = mode ≡ atomic_add → s.locked ≡ false

  Move-Inv :
      (s : Shared) (us vs : List Worker) {w w' : Worker} {t : Shared}
      → s.workers ≡ us ++ w ∷ vs
      → Move mode s w t w'
      → Open s
      → Inv s
      → Inv (record t { workers = us ++ w' ∷ vs })
  Move-Inv s us vs at (add_alone alone) free v =
      let (sum, a, b, d) = around s us vs outside at v in
      let now = add_one s.counter in
      let nobody : total inside us + total inside vs ≡ 0 =
        omega (arith, sum, ap flag (free alone)) in
      record {
        one = omega (arith, sum, total-append inside us (outside ∷ vs));
        fresh =
            All-append (Fresh now) us (outside ∷ vs) (outside-Fresh now us (omega (arith, nobody)))
              (tt, outside-Fresh now vs (omega (arith, nobody)));
        exact = omega (arith, v.exact);
      }
  Move-Inv s us vs at (lock m unlocked) free v =
      let (sum, a, b, d) = around s us vs outside at v in
      record {
        one = omega (arith, sum, total-append inside us (entered ∷ vs), ap flag unlocked);
        fresh = All-append (Fresh s.counter) us (entered ∷ vs) a (tt, d);
        exact = v.exact;
      }
  Move-Inv s us vs at (load m) free v =
      let (sum, a, b, d) = around s us vs entered at v in
      record {
        one = omega (arith, sum, total-append inside us (loaded s.counter ∷ vs));
        fresh = All-append (Fresh s.counter) us (loaded s.counter ∷ vs) a (refl, d);
        exact = v.exact;
      }
  Move-Inv s us vs at (store {v = read}) free v =
      let (sum, a, b, d) = around s us vs (loaded read) at v in
      let bound = flag_bound s.locked in
      let now = add_one read in
      record {
        one = omega (arith, sum, total-append inside us (stored ∷ vs));
        fresh =
            All-append (Fresh now) us (stored ∷ vs)
              (outside-Fresh now us (omega (arith, sum, bound)))
              (tt, outside-Fresh now vs (omega (arith, sum, bound)));
        exact = omega (arith, v.exact, b);
      }
  Move-Inv s us vs at (add_inside m) free v =
      let (sum, a, b, d) = around s us vs entered at v in
      let bound = flag_bound s.locked in
      let now = add_one s.counter in
      record {
        one = omega (arith, sum, total-append inside us (stored ∷ vs));
        fresh =
            All-append (Fresh now) us (stored ∷ vs)
              (outside-Fresh now us (omega (arith, sum, bound)))
              (tt, outside-Fresh now vs (omega (arith, sum, bound)));
        exact = omega (arith, v.exact);
      }
  Move-Inv s us vs at unlock free v =
      let (sum, a, b, d) = around s us vs stored at v in
      record {
        one = omega (arith, sum, total-append inside us (outside ∷ vs), flag_bound s.locked);
        fresh = All-append (Fresh s.counter) us (outside ∷ vs) a (tt, d);
        exact = v.exact;
      }

  Move-Open : {s t : Shared} {w w' : Worker} → Move mode s w t w' → Open s → Open t
  Move-Open (add_alone m) h = h
  Move-Open (lock m unlocked) h = λ alone. ground arith
  Move-Open (load m) h = h
  Move-Open store h = h
  Move-Open (add_inside m) h = h
  Move-Open unlock h = λ alone. refl

  start-outside : (n : ℕ) → total inside (replicate n outside) ≡ 0
  start-outside zero = refl
  start-outside (suc n) = omega (arith, start-outside n)

  Reach-Open : (n : ℕ) {s : Shared} → Reach mode n s → Open s
  unfolding start
  Reach-Open n begin = λ alone. refl
  Reach-Open n (later r (step us vs at m)) = Move-Open m (Reach-Open n r)

  pub Reach-Inv : (n : ℕ) {s : Shared} → Reach mode n s → Inv s
  unfolding start
  Reach-Inv n begin = record {
    one = start-outside n;
    fresh = outside-Fresh 0 (replicate n outside) (start-outside n);
    exact = omega arith;
  }
  Reach-Inv n (later {s = s} r (step us vs at m)) =
      Move-Inv s us vs at m (Reach-Open n r) (Reach-Inv n r)

  -- For any number of goroutines and any schedule of their steps: at most one of them is between
  -- `Lock` and `Unlock`, and the counter is the number of the increments that have been made, modulo
  -- 2^64.
  pub no_lost_increment :
      (n : ℕ) {s : Shared}
      → Reach mode n s
      → (total inside s.workers ≤ 1) × (s.counter ≡ s.finished % modulus)
  no_lost_increment n {s} r =
      let v = Reach-Inv n r in (omega (arith, v.one, flag_bound s.locked), v.exact)

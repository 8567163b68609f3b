-- ===== src/DocPipeline/Stage/Invariant.antt =====
-- What holds in every reachable state of a stage.
use performance_handbook.Base.{
  ℕ, ◌+◌, ◌≤◌, ◌≡◌, refl, ap, ◌∙◌, subst, List, [], ◌∷◌, ◌++◌, Option, none, some, arith, length,
  length-append, append_assoc, All, All-append,
}
use performance_handbook.Base.Totals.{
  total-swap, total, total-append, filter_map, filter_map-append,
}
use performance_handbook.DocPipeline.Stage.{
  Worker, received, counted, failing, measured, sending, returned, State, Move, see_cancelled,
  see_closed, receive, count_item, call_ok, call_error, count_error, record_latency, send, give_up,
  Step, worker, close_out, offer, close_in, cancel, consume,
}

module _ {ℓ κ} {I : Type ℓ} {O : Type κ} where
  -- The weight of the item that a worker holds.
  abbrev pub held : (I → ℕ) → Worker I O → ℕ
  held w (received x) = w x
  held w (counted x) = w x
  held w (failing x) = w x
  held w (measured x y) = w x
  held w (sending x y) = w x
  held w _ = 0

  abbrev pub active : Worker I O → ℕ
  active returned = 0
  active _ = 1

  abbrev pub gone : Worker I O → ℕ
  gone returned = 1
  gone _ = 0

  -- Workers that hold an item which has been counted, and whose latency has been recorded.
  abbrev pub past_count : Worker I O → ℕ
  past_count (counted x) = 1
  past_count (failing x) = 1
  past_count (measured x y) = 1
  past_count (sending x y) = 1
  past_count _ = 0

  abbrev pub past_latency : Worker I O → ℕ
  past_latency (sending x y) = 1
  past_latency _ = 0

  -- Each item that was offered is in one place, as often as it was offered.
  pub record Placed (s : State I O) : Type (ℓ ⊔ κ) where
    pub places :
        (w : I → ℕ)
        → total w s.offered
          ≡ total w s.input
            + total (held w) s.workers
            + total w s.sent
            + total w s.failed
            + total w s.dropped

  -- What a worker knows of its item.
  abbrev pub Tells : (I → Option O) → Worker I O → Type κ
  Tells fn (failing x) = fn x ≡ none
  Tells fn (measured x y) = fn x ≡ some y
  Tells fn (sending x y) = fn x ≡ some y
  Tells fn _ = Unit

module _ {ℓ κ} {I : Type ℓ} {O : Type κ} (fn : I → Option O) (capacity : ℕ) where
  Move-held :
      {s t : State I O} {a b : Worker I O}
      → Move fn capacity s a t b
      → (w : I → ℕ)
      → (total w t.offered ≡ total w s.offered)
        × (total w t.input + held w b + total w t.sent + total w t.failed + total w t.dropped
            ≡ total w s.input + held w a + total w s.sent + total w s.failed + total w s.dropped)
  Move-held {s} (see_cancelled e) w = (refl, omega arith)
  Move-held {s} (see_closed e f) w = (refl, omega arith)
  Move-held {s} (receive e) w = (refl, omega (arith, ap (total w) e))
  Move-held {s} count_item w = (refl, omega arith)
  Move-held {s} (call_ok e) w = (refl, omega arith)
  Move-held {s} (call_error e) w = (refl, omega arith)
  Move-held {s} (count_error {x}) w = (refl, omega (arith, total-append w s.failed (x ∷ [])))
  Move-held {s} record_latency w = (refl, omega arith)
  Move-held {s} (send {x} h) w = (refl, omega (arith, total-append w s.sent (x ∷ [])))
  Move-held {s} (give_up {x} h) w = (refl, omega (arith, total-append w s.dropped (x ∷ [])))

  pub Step-Placed : {s t : State I O} → Step fn capacity s t → Placed s → Placed t
  Step-Placed {s} (worker ws vs {w = a} {w' = b} e m) p = record {
    places = λ w.
        let (same, moved) = Move-held m w in
        omega
          (arith, p.places w, ap (total (held w)) e, total-swap (held w) ws vs a b, same, moved);
  }
  Step-Placed (close_out e f) p = record { places = p.places }
  Step-Placed {s} (offer x e) p = record {
    places = λ w.
        omega
          (arith, p.places w, total-append w s.input (x ∷ []), total-append w s.offered (x ∷ []));
  }
  Step-Placed (close_in e) p = record { places = p.places }
  Step-Placed cancel p = record { places = p.places }
  Step-Placed (consume e) p = record { places = p.places }

  -- The results that went into `out` are those of the items in `sent`, in that order.
  pub record Told (s : State I O) : Type (ℓ ⊔ κ) where
    pub coherent : All (Tells fn) s.workers
    pub results : s.consumed ++ s.out ≡ filter_map fn s.sent
    pub sized : length s.consumed + length s.out ≡ length s.sent
    pub failures : All (λ x. fn x ≡ none) s.failed
    pub bounded : length s.out ≤ capacity

  All-here :
      (ws vs : List (Worker I O)) (a : Worker I O) → All (Tells fn) (ws ++ a ∷ vs) → Tells fn a
  All-here [] vs a h = h.0
  All-here (x ∷ ws) vs a h = All-here ws vs a h.1

  All-swap :
      (ws vs : List (Worker I O)) (a b : Worker I O)
      → Tells fn b
      → All (Tells fn) (ws ++ a ∷ vs)
      → All (Tells fn) (ws ++ b ∷ vs)
  All-swap [] vs a b k h = (k, h.1)
  All-swap (x ∷ ws) vs a b k h = (h.0, All-swap ws vs a b k h.1)

  Move-Tells :
      {s t : State I O} {a b : Worker I O} → Move fn capacity s a t b → Tells fn a → Tells fn b
  Move-Tells (see_cancelled e) k = tt
  Move-Tells (see_closed e f) k = tt
  Move-Tells (receive e) k = tt
  Move-Tells count_item k = tt
  Move-Tells (call_ok e) k = e
  Move-Tells (call_error e) k = e
  Move-Tells count_error k = tt
  Move-Tells record_latency k = k
  Move-Tells (send h) k = tt
  Move-Tells (give_up h) k = tt

  Move-results :
      {s t : State I O} {a b : Worker I O}
      → Move fn capacity s a t b
      → Tells fn a
      → Told s
      → (t.consumed ++ t.out ≡ filter_map fn t.sent)
        × All (λ x. fn x ≡ none) t.failed
        × (length t.out ≤ capacity)
        × (length t.consumed + length t.out ≡ length t.sent)
  Move-results {s} (count_error {x}) k h = (
    h.results,
    All-append (λ z. fn z ≡ none) s.failed (x ∷ []) h.failures (k, tt),
    h.bounded,
    h.sized,
  )
  Move-results {s} (send {x} {y} room) k h = (
    ground (
      arith,
      k,
      h.results,
      append_assoc s.consumed s.out (y ∷ []),
      filter_map-append fn s.sent (x ∷ []),
    ),
    h.failures,
    omega (arith, length-append s.out (y ∷ [])),
    omega (arith, h.sized, length-append s.out (y ∷ []), length-append s.sent (x ∷ [])),
  )
  Move-results {s} (see_cancelled e) k h = (h.results, h.failures, h.bounded, h.sized)
  Move-results {s} _ k h = (h.results, h.failures, h.bounded, h.sized)

  pub Step-Told : {s t : State I O} → Step fn capacity s t → Told s → Told t
  Step-Told {s} (worker ws vs {w = a} {w' = b} e m) h =
      let here : All (Tells fn) (ws ++ a ∷ vs) = subst (All (Tells fn)) e h.coherent in
      let knows = All-here ws vs a here in
      let (results, failures, bounded, sized) = Move-results m knows h in
      record {
        coherent = All-swap ws vs a b (Move-Tells m knows) here;
        results = results;
        sized = sized;
        failures = failures;
        bounded = bounded;
      }
  Step-Told {s} (consume {y} {ys} e) h = record {
    coherent = h.coherent;
    results = append_assoc s.consumed (y ∷ []) ys ∙ (rw e at h.results);
    sized = omega (arith, h.sized, ap length e, length-append s.consumed (y ∷ []));
    failures = h.failures;
    bounded = omega (arith, h.bounded, ap length e);
  }
  Step-Told {s} (close_out e f) h = record {
    coherent = h.coherent;
    results = h.results;
    sized = h.sized;
    failures = h.failures;
    bounded = h.bounded;
  }
  Step-Told {s} _ h = record {
    coherent = h.coherent;
    results = h.results;
    sized = h.sized;
    failures = h.failures;
    bounded = h.bounded;
  }

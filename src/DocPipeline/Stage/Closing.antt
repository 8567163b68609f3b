-- ===== src/DocPipeline/Stage/Closing.antt =====
-- When workers return, when `out` is closed, and what the metrics count.
use performance_handbook.Base.{
  ℕ, ◌+◌, ◌≤◌, ◌<◌, ◌≡◌, refl, sym, ap, ◌∙◌, true, false, List, [], ◌∷◌, ◌++◌, Option, arith,
  length, length-append,
}
use mathlib.Core.Bool.{false≢true}
use native.Mathlib.Decide.{dec_lt}
use performance_handbook.Base.Totals.{total-swap, total, total-append}
use performance_handbook.DocPipeline.Stage.{
  Worker, returned, State, Move, see_cancelled, see_closed, receive, count_item, call_ok,
  call_error, count_error, record_latency, send, give_up, Step, worker, close_out, offer, close_in,
  cancel, consume,
}
use performance_handbook.DocPipeline.Stage.Invariant.{active, gone, past_count, past_latency}

module _ {ℓ κ} {I : Type ℓ} {O : Type κ} where
  pub record Closing (s : State I O) : Type (ℓ ⊔ κ) where
    pub waits : s.wait_group ≡ total active s.workers
    pub closed : s.out_closed ≡ true → s.wait_group ≡ 0
    pub kept : s.cancelled ≡ false → s.dropped ≡ []
    pub ended :
        s.cancelled ≡ false → 0 < total gone s.workers → (s.in_closed ≡ true) × (s.input ≡ [])

  pub record Counted (s : State I O) : Type (ℓ ⊔ κ) where
    pub items :
        s.processed
        ≡ length s.sent + length s.failed + length s.dropped + total past_count s.workers
    pub errors : s.errors ≡ length s.failed
    pub latencies : s.latencies ≡ length s.sent + length s.dropped + total past_latency s.workers

  active-gone : (a : Worker I O) → active a + gone a ≡ 1
  active-gone returned = refl
  active-gone _ = refl

  pub total-member :
      (f : Worker I O → ℕ) (ws vs : List (Worker I O)) (a : Worker I O)
      → f a ≤ total f (ws ++ a ∷ vs)
  total-member f ws vs a = omega (arith, total-append f ws (a ∷ vs))

module _ {ℓ κ} {I : Type ℓ} {O : Type κ} (fn : I → Option O) (capacity : ℕ) where
  -- What a step of one worker does to the counters, when the counter of the group is not zero.
  Move-counters :
      {s t : State I O} {a b : Worker I O}
      → Move fn capacity s a t b
      → 0 < s.wait_group
      → (t.wait_group + active a ≡ s.wait_group + active b)
        × (t.processed + length s.sent + length s.failed + length s.dropped + past_count a
            ≡ s.processed + length t.sent + length t.failed + length t.dropped + past_count b)
        × (t.errors + length s.failed ≡ s.errors + length t.failed)
        × (t.latencies + length s.sent + length s.dropped + past_latency a
            ≡ s.latencies + length t.sent + length t.dropped + past_latency b)
  Move-counters {s} (see_cancelled e) p = omega arith
  Move-counters {s} (see_closed e f) p = omega arith
  Move-counters {s} (receive e) p = omega arith
  Move-counters {s} count_item p = omega arith
  Move-counters {s} (call_ok e) p = omega arith
  Move-counters {s} (call_error e) p = omega arith
  Move-counters {s} (count_error {x}) p = omega (arith, length-append s.failed (x ∷ []))
  Move-counters {s} record_latency p = omega arith
  Move-counters {s} (send {x} h) p = omega (arith, length-append s.sent (x ∷ []))
  Move-counters {s} (give_up {x} h) p = omega (arith, length-append s.dropped (x ∷ []))

  -- A worker that moves has not returned.
  Move-active : {s t : State I O} {a b : Worker I O} → Move fn capacity s a t b → active a ≡ 1
  Move-active (see_cancelled e) = refl
  Move-active (see_closed e f) = refl
  Move-active (receive e) = refl
  Move-active count_item = refl
  Move-active (call_ok e) = refl
  Move-active (call_error e) = refl
  Move-active count_error = refl
  Move-active record_latency = refl
  Move-active (send h) = refl
  Move-active (give_up h) = refl

  -- A worker drops an item only when cancelled, and returns then, or at the end of the input.
  Move-ends :
      {s t : State I O} {a b : Worker I O}
      → Move fn capacity s a t b
      → (t.cancelled ≡ s.cancelled)
        × (t.out_closed ≡ s.out_closed)
        × (t.in_closed ≡ s.in_closed)
        × (s.cancelled ≡ false → t.dropped ≡ s.dropped)
        × (s.input ≡ [] → t.input ≡ [])
        × (s.cancelled ≡ false → 0 < gone b → (t.in_closed ≡ true) × (t.input ≡ []))
  Move-ends {s} (see_cancelled e) = (refl, refl, refl, λ f. refl, λ f. f, λ f. cc)
  Move-ends {s} (see_closed e f) = (refl, refl, refl, λ f. refl, λ f. f, λ c g. (e, f))
  Move-ends {s} (receive e) = (refl, refl, refl, λ f. refl, λ f. cc, λ f g. absurd (omega arith))
  Move-ends {s} (give_up h) = (refl, refl, refl, λ f. cc, λ f. f, λ f. cc)
  Move-ends {s} _ = (refl, refl, refl, λ f. refl, λ f. f, λ f g. absurd (omega arith))

  Closing-worker :
      {s t : State I O} (ws vs : List (Worker I O)) (a b : Worker I O)
      → s.workers ≡ ws ++ a ∷ vs
      → Move fn capacity s a t b
      → Closing s
      → Closing (record t { workers = ws ++ b ∷ vs })
  Closing-worker {s} {t} ws vs a b e m c =
      let (same_c, same_o, same_i, kept, still, ends) = Move-ends m in
      let busy : 0 < s.wait_group =
        omega (arith, c.waits, Move-active m, ap (total active) e, total-member active ws vs a) in
      let (waits, _, _, _) = Move-counters m busy in
      record {
        waits = omega (arith, c.waits, ap (total active) e, total-swap active ws vs a b, waits);
        closed = λ o. absurd (omega (arith, c.closed (ground (arith, same_o))));
        kept = λ f. kept (sym same_c ∙ f) ∙ c.kept (sym same_c ∙ f);
        ended = λ f g. elim (dec_lt 0 (gone b)) [
          | yes now ↦ ends (sym same_c ∙ f) now
          | no not_now ↦
              let before : 0 < total gone s.workers =
                omega (arith, g, ap (total gone) e, total-swap gone ws vs a b) in
              let (shut, empty) = c.ended (sym same_c ∙ f) before in (same_i ∙ shut, still empty)
        ];
      }

  pub Step-Closing : {s t : State I O} → Step fn capacity s t → Closing s → Closing t
  Step-Closing {s} (worker ws vs {w = a} {w' = b} e m) c = Closing-worker ws vs a b e m c
  Step-Closing (close_out e f) c = record {
    waits = c.waits;
    closed = λ o. e;
    kept = c.kept;
    ended = c.ended;
  }
  Step-Closing {s} (offer x e) c = record {
    waits = c.waits;
    closed = c.closed;
    kept = c.kept;
    ended = λ f g. absurd (false≢true (sym e ∙ (c.ended f g).0));
  }
  Step-Closing (close_in e) c = record {
    waits = c.waits;
    closed = c.closed;
    kept = c.kept;
    ended = λ f g. (refl, (c.ended f g).1);
  }
  Step-Closing cancel c = record {
    waits = c.waits;
    closed = c.closed;
    kept = λ f. cc;
    ended = λ f g. absurd (false≢true (sym f));
  }
  Step-Closing (consume e) c = record {
    waits = c.waits;
    closed = c.closed;
    kept = c.kept;
    ended = c.ended;
  }

  pub Step-Counted : {s t : State I O} → Step fn capacity s t → Closing s → Counted s → Counted t
  Step-Counted {s} (worker ws vs {w = a} {w' = b} e m) c k =
      let busy : 0 < s.wait_group =
        omega (arith, c.waits, Move-active m, ap (total active) e, total-member active ws vs a) in
      let (_, items, errors, latencies) = Move-counters m busy in
      record {
        items =
            omega (arith, k.items, ap (total past_count) e, total-swap past_count ws vs a b, items);
        errors = omega (arith, k.errors, errors);
        latencies = omega (
          arith,
          k.latencies,
          ap (total past_latency) e,
          total-swap past_latency ws vs a b,
          latencies,
        );
      }
  Step-Counted (close_out e f) c k = record {
    items = k.items;
    errors = k.errors;
    latencies = k.latencies;
  }
  Step-Counted _ c k = record { items = k.items; errors = k.errors; latencies = k.latencies }

  -- The workers that have returned and those that have not are always as many as there were.
  pub Step-crew :
      {s t : State I O}
      → Step fn capacity s t
      → total active t.workers + total gone t.workers
        ≡ total active s.workers + total gone s.workers
  Step-crew {s} (worker ws vs {w = a} {w' = b} e m) = omega (
    arith,
    ap (total active) e,
    ap (total gone) e,
    total-swap active ws vs a b,
    total-swap gone ws vs a b,
    active-gone a,
    active-gone b,
  )
  Step-crew (close_out e f) = refl
  Step-crew _ = refl

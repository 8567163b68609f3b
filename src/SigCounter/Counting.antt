-- ===== src/SigCounter/Counting.antt =====
-- What a counter that is read shows.
use performance_handbook.Base.{
  ℕ, suc, ◌+◌, ◌%◌, ◌<◌, ◌≡◌, refl, sym, ap, inl, inr, Bool-cases, ◌∙◌, true, false, List, [], ◌∷◌,
  ◌++◌, arith, All,
}
use performance_handbook.SigCounter.{
  Signal, sigusr1, sigusr2, sigterm, sigint, Event, tick, signal, Program, modulus, on_signal,
  on_event, run_events,
}

-- Neither a reset nor the end.
abbrev pub Quiet : Event → Type 0
Quiet tick = Unit
Quiet (signal sigusr1) = Unit
Quiet (signal sigusr2) = ⊥
Quiet (signal sigterm) = ⊥
Quiet (signal sigint) = ⊥

abbrev pub ticks_in : List Event → ℕ
ticks_in [] = 0
ticks_in (tick ∷ es) = suc (ticks_in es)
ticks_in (signal s ∷ es) = ticks_in es

goes_on :
    (e : Event) (es : List Event) (p : Program)
    → p.returned ≡ false
    → run_events (e ∷ es) p ≡ run_events es (on_event e p)
unfolding run_events
goes_on e es p r = ground arith

counted :
    (es : List Event) (p : Program)
    → p.returned ≡ false
    → p.value < modulus
    → All Quiet es
    → ((run_events es p).value ≡ (p.value + ticks_in es) % modulus)
      × ((run_events es p).returned ≡ false)
unfolding run_events on_event on_signal
counted [] p r h q = (omega arith, r)
counted (tick ∷ es) p r h (done, q) =
    let (v, still) = counted es (record p { value = (p.value + 1) % modulus }) r (omega arith) q in
    let same = goes_on tick es p r in
    (
      ap (λ (z : Program). z.value) same ∙ v ∙ omega arith,
      ap (λ (z : Program). z.returned) same ∙ still,
    )
counted (signal sigusr1 ∷ es) p r h (done, q) =
    let (v, still) = counted es (record p { printed = p.printed ++ p.value ∷ [] }) r h q in
    let same = goes_on (signal sigusr1) es p r in
    (ap (λ (z : Program). z.value) same ∙ v, ap (λ (z : Program). z.returned) same ∙ still)
counted (signal sigusr2 ∷ es) p r h q = absurd q.0
counted (signal sigterm ∷ es) p r h q = absurd q.0
counted (signal sigint ∷ es) p r h q = absurd q.0

-- Before the program returns: a USR1 prints the number of ticks since the last USR2, modulo 2^64,
-- whatever other USR1 came between.
pub prints_ticks_since_reset :
    (p : Program) (es : List Event)
    → p.returned ≡ false
    → All Quiet es
    → let last = run_events es (on_event (signal sigusr2) p) in
      (on_event (signal sigusr1) last).printed ≡ last.printed ++ (ticks_in es % modulus) ∷ []
unfolding on_event on_signal
prints_ticks_since_reset p es r q =
    let v = (counted es (record p { value = 0 }) r (omega arith) q).0 in
    ap (λ shown. (run_events es (record p { value = 0 })).printed ++ shown ∷ []) (v ∙ omega arith)

-- TERM and INT.
pub data IsFinal : Signal → Type 0 where
  terminated : IsFinal sigterm
  interrupted : IsFinal sigint

stays_returned : (es : List Event) (p : Program) → p.returned ≡ true → run_events es p ≡ p
unfolding run_events
stays_returned [] p r = refl
stays_returned (e ∷ es) p r = ground arith

has_returned : (s : Signal) (p : Program) → IsFinal s → (on_event (signal s) p).returned ≡ true
unfolding on_event on_signal
has_returned s p terminated = refl
has_returned s p interrupted = refl

ends_running :
    (s : Signal) (before after : List Event) (p : Program)
    → IsFinal s
    → p.returned ≡ false
    → (run_events (before ++ signal s ∷ after) p ≡ run_events (before ++ signal s ∷ []) p)
      × ((run_events (before ++ signal s ∷ after) p).returned ≡ true)
ends_running s [] after p ends r =
    let done = has_returned s p ends in
    let last = goes_on (signal s) after p r ∙ stays_returned after (on_event (signal s) p) done in
    (
      last ∙ sym (goes_on (signal s) [] p r ∙ stays_returned [] (on_event (signal s) p) done),
      ap (λ (z : Program). z.returned) last ∙ done,
    )
ends_running s (e ∷ before) after p ends r =
    let q = on_event e p in
    let one = goes_on e (before ++ signal s ∷ after) p r in
    let other = goes_on e (before ++ signal s ∷ []) p r in
    elim (Bool-cases q.returned) [
      | inl still ↦
          let a = stays_returned (before ++ signal s ∷ after) q still in
          let b = stays_returned (before ++ signal s ∷ []) q still in
          (one ∙ a ∙ sym b ∙ sym other, ap (λ (z : Program). z.returned) (one ∙ a) ∙ still)
      | inr still ↦
          let (same, last) = ends_running s before after q ends still in
          (one ∙ same ∙ sym other, ap (λ (z : Program). z.returned) one ∙ last)
    ]

-- A TERM or an INT ends the program, whatever came before: it has returned, and nothing that comes
-- after it changes the counter or is printed.
pub ends_at_signal :
    (s : Signal) (before after : List Event) (p : Program)
    → IsFinal s
    → (run_events (before ++ signal s ∷ after) p ≡ run_events (before ++ signal s ∷ []) p)
      × ((run_events (before ++ signal s ∷ after) p).returned ≡ true)
ends_at_signal s before after p ends = elim (Bool-cases p.returned) [
  | inl r ↦
      let still = stays_returned (before ++ signal s ∷ after) p r in
      (
        still ∙ sym (stays_returned (before ++ signal s ∷ []) p r),
        ap (λ (z : Program). z.returned) still ∙ r,
      )
  | inr r ↦ ends_running s before after p ends r
]

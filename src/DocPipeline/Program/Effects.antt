-- ===== src/DocPipeline/Program/Effects.antt =====
-- What the steps do to the channels of the program.
use Prim.Native.String.{String}
use performance_handbook.Base.{
  ℕ, ◌≡◌, refl, sym, ap, subst, ◌∙◌, append-nil, List, [], ◌∷◌, ◌++◌, Option,
}
use performance_handbook.Base.Int.{ℤ}
use performance_handbook.DocPipeline.Load.{DataLoadingConfig}
use performance_handbook.DocPipeline.Load.Generator.{
  Loading, Step, stop, tick, push, count, cancel, receive,
}
use performance_handbook.DocPipeline.Stage.{
  Worker, State, Move, see_cancelled, see_closed, receive as worker_receives, count_item, call_ok,
  call_error, count_error, record_latency, send, give_up,
}
use performance_handbook.DocPipeline.Pipeline.{
  work, close, Line, LineStep, request, last_request, in_loading, in_tokenizing, in_embedding,
  loaded, no_more_loaded, tokenized, no_more_tokenized, embedded,
}
use performance_handbook.DocPipeline.Program.{
  Effect, nothing, puts, takes, ends, passes, generator_effect, move_effect, line_effect,
}

-- What an effect makes of the first channel, and of all that was sent on it
abbrev pub Affects {ℓ} :
    {D : Type ℓ} → Effect D → (out out' sent sent' : List DataLoadingConfig) → Type 0
Affects nothing out out' sent sent' = (out' ≡ out) × (sent' ≡ sent)
Affects (puts x) out out' sent sent' = (out' ≡ out ++ x ∷ []) × (sent' ≡ sent ++ x ∷ [])
Affects (takes x) out out' sent sent' = (out ≡ x ∷ out') × (sent' ≡ sent)
Affects ends out out' sent sent' = (out' ≡ out) × (sent' ≡ sent)
Affects (passes y) out out' sent sent' = (out' ≡ out) × (sent' ≡ sent)

-- The documents that an effect passes on
abbrev pub passed {ℓ} : {D : Type ℓ} → Effect D → List D
passed nothing = []
passed (puts x) = []
passed (takes x) = []
passed ends = []
passed (passes y) = y ∷ []

module _ {ℓ κ} {B C : Type 0} {D : Type ℓ} {Rng : Type κ} (intn : ℤ → Rng → Option (ℕ × Rng))
    (format_id : String → ℤ → String) (f : DataLoadingConfig → Option B) (g : B → Option C)
    (h : C → Option D) where
  generator_Affects :
      {s t : Loading Rng} (st : Step intn format_id s t)
      → Affects (generator_effect intn format_id f g h st) s.out t.out s.sent t.sent
  unfolding generator_effect
  generator_Affects (stop e cancelled) = (refl, refl)
  generator_Affects (tick e made) = (refl, refl)
  generator_Affects (push e room) = (refl, refl)
  generator_Affects (count e) = (refl, refl)
  generator_Affects cancel = (refl, refl)
  generator_Affects (receive e) = (e, refl)

  move_Affects :
      {s t : State DataLoadingConfig B} {w w' : Worker DataLoadingConfig B}
      (m : Move f 100 s w t w')
      → Affects (move_effect intn format_id f g h m) s.input t.input s.offered t.offered
  unfolding move_effect
  move_Affects (see_cancelled e) = (refl, refl)
  move_Affects (see_closed e empty) = (refl, refl)
  move_Affects (worker_receives e) = (e, refl)
  move_Affects count_item = (refl, refl)
  move_Affects (call_ok e) = (refl, refl)
  move_Affects (call_error e) = (refl, refl)
  move_Affects count_error = (refl, refl)
  move_Affects record_latency = (refl, refl)
  move_Affects (send room) = (refl, refl)
  move_Affects (give_up e) = (refl, refl)

  line_Affects :
      {s t : Line DataLoadingConfig B C D} (st : LineStep f g h s t)
      → Affects
          (line_effect intn format_id f g h st)
          s.loading.input
          t.loading.input
          s.loading.offered
          t.loading.offered
  unfolding line_effect
  line_Affects (request x e) = (refl, refl)
  line_Affects (last_request e) = (refl, refl)
  line_Affects (in_loading (work ws vs e m)) = move_Affects m
  line_Affects (in_loading (close e o)) = (refl, refl)
  line_Affects (in_tokenizing i) = (refl, refl)
  line_Affects (in_embedding i) = (refl, refl)
  line_Affects (loaded ws vs e w) = (refl, refl)
  line_Affects (no_more_loaded o empty e) = (refl, refl)
  line_Affects (tokenized ws vs e w) = (refl, refl)
  line_Affects (no_more_tokenized o empty e) = (refl, refl)
  line_Affects (embedded e) = (refl, refl)

  pub generator_told :
      {s t : Loading Rng} {x : Effect D} (st : Step intn format_id s t)
      → generator_effect intn format_id f g h st ≡ x
      → Affects x s.out t.out s.sent t.sent
  generator_told {s} {t} st e =
      subst (λ x. Affects x s.out t.out s.sent t.sent) e (generator_Affects st)

  pub line_told :
      {s t : Line DataLoadingConfig B C D} {x : Effect D} (st : LineStep f g h s t)
      → line_effect intn format_id f g h st ≡ x
      → Affects x s.loading.input t.loading.input s.loading.offered t.loading.offered
  line_told {s} {t} st e =
      subst (λ x. Affects x s.loading.input t.loading.input s.loading.offered t.loading.offered) e
        (line_Affects st)

  move_consumed :
      {fn : C → Option D} {s t : State C D} {w w' : Worker C D}
      → Move fn 100 s w t w'
      → t.consumed ≡ s.consumed
  move_consumed (see_cancelled e) = refl
  move_consumed (see_closed e empty) = refl
  move_consumed (worker_receives e) = refl
  move_consumed count_item = refl
  move_consumed (call_ok e) = refl
  move_consumed (call_error e) = refl
  move_consumed count_error = refl
  move_consumed record_latency = refl
  move_consumed (send room) = refl
  move_consumed (give_up e) = refl

  move_passed :
      {s t : State DataLoadingConfig B} {w w' : Worker DataLoadingConfig B}
      (m : Move f 100 s w t w')
      → passed (move_effect intn format_id f g h m) ≡ []
  unfolding move_effect
  move_passed (see_cancelled e) = refl
  move_passed (see_closed e empty) = refl
  move_passed (worker_receives e) = refl
  move_passed count_item = refl
  move_passed (call_ok e) = refl
  move_passed (call_error e) = refl
  move_passed count_error = refl
  move_passed record_latency = refl
  move_passed (send room) = refl
  move_passed (give_up e) = refl

  same_by : (xs ys : List D) (x : Effect D) → ys ≡ xs → passed x ≡ [] → ys ≡ xs ++ passed x
  same_by xs ys x e none_passed =
      e ∙ (sym (append-nil xs) ∙ ap (λ more. xs ++ more) (sym none_passed))

  -- What the index stage has received
  line_passes :
      {s t : Line DataLoadingConfig B C D} (st : LineStep f g h s t)
      → t.embedding.consumed ≡ s.embedding.consumed ++ passed (line_effect intn format_id f g h st)
  unfolding line_effect
  line_passes {s} (request x e) = sym (append-nil s.embedding.consumed)
  line_passes {s} (last_request e) = sym (append-nil s.embedding.consumed)
  line_passes {s} (in_loading (work ws vs e m)) =
      same_by s.embedding.consumed s.embedding.consumed (move_effect intn format_id f g h m) refl
        (move_passed m)
  line_passes {s} (in_loading (close e o)) = sym (append-nil s.embedding.consumed)
  line_passes {s} (in_tokenizing i) = sym (append-nil s.embedding.consumed)
  line_passes {s} (in_embedding (work ws vs e m)) =
      move_consumed m ∙ sym (append-nil s.embedding.consumed)
  line_passes {s} (in_embedding (close e o)) = sym (append-nil s.embedding.consumed)
  line_passes {s} (loaded ws vs e w) = sym (append-nil s.embedding.consumed)
  line_passes {s} (no_more_loaded o empty e) = sym (append-nil s.embedding.consumed)
  line_passes {s} (tokenized ws vs e w) = sym (append-nil s.embedding.consumed)
  line_passes {s} (no_more_tokenized o empty e) = sym (append-nil s.embedding.consumed)
  line_passes {s} (embedded {y} e) = refl

  pub line_passed :
      {s t : Line DataLoadingConfig B C D} {x : Effect D} (st : LineStep f g h s t)
      → line_effect intn format_id f g h st ≡ x
      → t.embedding.consumed ≡ s.embedding.consumed ++ passed x
  line_passed {s} {t} st e =
      subst (λ x. t.embedding.consumed ≡ s.embedding.consumed ++ passed x) e (line_passes st)

  pub keeps_consumed :
      {s t : Line DataLoadingConfig B C D} (x : Effect D) (st : LineStep f g h s t)
      → line_effect intn format_id f g h st ≡ x
      → passed x ≡ []
      → s.embedding.consumed ≡ t.embedding.consumed
  keeps_consumed {s} x st e none_passed = sym (
      line_passed st e
      ∙ (ap (λ more. s.embedding.consumed ++ more) none_passed ∙ append-nil s.embedding.consumed))

  pub tail : {x y : DataLoadingConfig} {xs ys : List DataLoadingConfig} → x ∷ xs ≡ y ∷ ys → xs ≡ ys
  tail e = cc

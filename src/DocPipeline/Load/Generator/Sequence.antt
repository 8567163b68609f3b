-- ===== src/DocPipeline/Load/Generator/Sequence.antt =====
-- What the generator sends, and when it stops.
use Prim.Native.String.{String}
use performance_handbook.Base.{
  ℕ, ◌+◌, ◌≤◌, ◌<◌, ◌≡◌, ◌⊎◌, inl, inr, refl, ap, subst, List, [], ◌∷◌, ◌++◌, Option, some, arith,
  length, length-append,
}
use performance_handbook.Base.Int.{ℤ, pos, ◌≤ℤ◌, ◌+ℤ◌}
use performance_handbook.DocPipeline.Load.{LoadGeneratorConfig, DataLoadingConfig, generate}
use performance_handbook.DocPipeline.Load.Bounds.{IsIntn, generate_within}
use performance_handbook.DocPipeline.Load.Generator.{
  new_load_generator, Phase, selecting, pushing, counting, returned, Loading, idle, Step, stop,
  tick, push, count, cancel, receive, Steps, here, next, out_size,
}

module _ {ℓ} {Rng : Type ℓ} (intn : ℤ → Rng → Option (ℕ × Rng))
    (format_id : String → ℤ → String) where
  -- The request of number `n`: it has its id, and lies in the file.
  abbrev pub IsNth : LoadGeneratorConfig → ℕ → DataLoadingConfig → Type 0
  IsNth config n r =
      (r.id ≡ format_id config.id_prefix (pos n))
      × (r.file_path ≡ config.file_path)
      × (pos 0 ≤ℤ r.offset)
      × (pos 1 ≤ℤ r.text_size)
      × (r.offset +ℤ r.text_size ≤ℤ config.file_size)

  -- Requests of successive numbers, from `n`.
  abbrev pub Numbered : LoadGeneratorConfig → ℕ → List DataLoadingConfig → Type 0
  Numbered config n [] = Unit
  Numbered config n (r ∷ rs) = IsNth config n r × Numbered config (n + 1) rs

  Numbered-snoc :
      (config : LoadGeneratorConfig) (n : ℕ) (rs : List DataLoadingConfig) (r : DataLoadingConfig)
      → Numbered config n rs
      → IsNth config (n + length rs) r
      → Numbered config n (rs ++ r ∷ [])
  Numbered-snoc config n [] r h last = (subst (λ k. IsNth config k r) (omega arith) last, tt)
  Numbered-snoc config n (q ∷ rs) r h last = (
    h.0,
    Numbered-snoc config (n + 1) rs r h.1 (subst (λ k. IsNth config k r) (omega arith) last),
  )

  abbrev Pending : LoadGeneratorConfig → ℕ → Phase → Type 0
  Pending config n selecting = Unit
  Pending config n (pushing r) = IsNth config n r
  Pending config n counting = Unit
  Pending config n returned = Unit

  abbrev in_hand : Phase → ℕ
  in_hand selecting = 0
  in_hand (pushing r) = 1
  in_hand counting = 1
  in_hand returned = 0

  -- A request that was sent and is not counted
  abbrev uncounted : Phase → ℕ
  uncounted selecting = 0
  uncounted (pushing r) = 0
  uncounted counting = 1
  uncounted returned = 0

  record Inv (config : LoadGeneratorConfig) (s : Loading Rng) : Type 0 where
    same : s.generator.config ≡ config
    numbered : Numbered config 0 s.sent
    sum : length s.sent ≡ s.generator.counter + uncounted s.phase
    pending : Pending config s.generator.counter s.phase
    metric : s.requests ≡ s.generator.counter + in_hand s.phase

  generate-IsNth :
      (config : LoadGeneratorConfig) (n : ℕ) (rng rng' : Rng) (request : DataLoadingConfig)
      → IsIntn intn
      → pos 1 ≤ℤ config.file_size
      → generate intn format_id config (pos n) rng ≡ some (request, rng')
      → IsNth config n request
  generate-IsNth config n rng rng' request law some_file made =
      let (r, rng'', made', named, path, least, size, inside) =
        generate_within intn format_id law config (pos n) rng some_file in
      let same : r ≡ request = ground arith in
      subst (IsNth config n) same (named, path, least, size, inside)

  Step-Inv :
      (config : LoadGeneratorConfig) {s t : Loading Rng}
      → IsIntn intn
      → pos 1 ≤ℤ config.file_size
      → Step intn format_id s t
      → Inv config s
      → Inv config t
  Step-Inv config {s} law some_file (stop at cancelled) v = record {
    same = v.same;
    numbered = v.numbered;
    sum = omega (arith, v.sum, ap uncounted at);
    pending = tt;
    metric = omega (arith, v.metric, ap in_hand at);
  }
  Step-Inv config {s} law some_file (tick {request} {rng} at made) v = record {
    same = v.same;
    numbered = v.numbered;
    sum = omega (arith, v.sum, ap uncounted at);
    pending = generate-IsNth config s.generator.counter s.generator.rng rng request law some_file (
        subst
          (λ c.
            generate intn format_id c (pos s.generator.counter) s.generator.rng
            ≡ some (request, rng))
          v.same made);
    metric = omega (arith, v.metric, ap in_hand at);
  }
  Step-Inv config {s} law some_file (push {request} at room) v = record {
    same = v.same;
    numbered = Numbered-snoc config 0 s.sent request v.numbered (
        subst (λ k. IsNth config k request) (omega (arith, v.sum, ap uncounted at))
          (subst (Pending config s.generator.counter) at v.pending));
    sum = omega (arith, v.sum, ap uncounted at, length-append s.sent (request ∷ []));
    pending = tt;
    metric = omega (arith, v.metric, ap in_hand at);
  }
  Step-Inv config {s} law some_file (count at) v = record {
    same = v.same;
    numbered = v.numbered;
    sum = omega (arith, v.sum, ap uncounted at);
    pending = tt;
    metric = omega (arith, v.metric, ap in_hand at);
  }
  Step-Inv config law some_file cancel v = record {
    same = v.same;
    numbered = v.numbered;
    sum = v.sum;
    pending = v.pending;
    metric = v.metric;
  }
  Step-Inv config law some_file (receive e) v = record {
    same = v.same;
    numbered = v.numbered;
    sum = v.sum;
    pending = v.pending;
    metric = v.metric;
  }

  Steps-Inv :
      (config : LoadGeneratorConfig) {s t : Loading Rng}
      → IsIntn intn
      → pos 1 ≤ℤ config.file_size
      → Steps intn format_id s t
      → Inv config s
      → Inv config t
  Steps-Inv config law some_file here v = v
  Steps-Inv config law some_file (next r step) v =
      Step-Inv config law some_file step (Steps-Inv config law some_file r v)

  -- For a file that is not empty: whatever the receiver and the context do, the requests that were
  -- sent have the ids of 0, 1, 2, ..., without a gap, each lies in the file, the counter
  -- counts them but at most the last, and the metric counts at most one more than the counter.
  pub sent_in_sequence :
      (config : LoadGeneratorConfig) (buffer_size : ℤ) (rng : Rng) {t : Loading Rng}
      → IsIntn intn
      → pos 1 ≤ℤ config.file_size
      → Steps intn format_id (idle (new_load_generator config buffer_size rng)) t
      → Numbered config 0 t.sent
        × (t.generator.counter ≤ length t.sent)
        × (length t.sent ≤ t.generator.counter + 1)
        × (t.generator.counter ≤ t.requests)
        × (t.requests ≤ t.generator.counter + 1)
  unfolding new_load_generator
  sent_in_sequence config buffer_size rng {t} law some_file r =
      let v = Steps-Inv config law some_file r (record {
        same = refl;
        numbered = tt;
        sum = omega arith;
        pending = tt;
        metric = omega arith;
      }) in
      let m = at_most_one t.phase in
      let u = at_most_last t.phase in
      (
        v.numbered,
        omega (arith, v.sum),
        omega (arith, v.sum, u),
        omega (arith, v.metric),
        omega (arith, v.metric, m),
      )
    where
      at_most_one : (phase : Phase) → in_hand phase ≤ 1
      at_most_one selecting = omega arith
      at_most_one (pushing r) = omega arith
      at_most_one counting = omega arith
      at_most_one returned = omega arith

      at_most_last : (phase : Phase) → uncounted phase ≤ 1
      at_most_last selecting = omega arith
      at_most_last (pushing r) = omega arith
      at_most_last counting = omega arith
      at_most_last returned = omega arith

  -- While a request waits at a full channel, whether or not the context is cancelled: after any step
  -- there is room in the channel, or the same request still waits at the same full channel.
  pub full_channel_blocks :
      {s t : Loading Rng} (request : DataLoadingConfig)
      → s.phase ≡ pushing request
      → length s.out ≡ out_size
      → Step intn format_id s t
      → (length t.out < out_size) ⊎ ((t.phase ≡ pushing request) × (t.out ≡ s.out))
  full_channel_blocks request at full (stop e cancelled) = ground arith
  full_channel_blocks request at full (tick e made) = ground arith
  full_channel_blocks request at full (push e room) = absurd (omega (arith, full, room))
  full_channel_blocks request at full (count e) = ground arith
  full_channel_blocks request at full cancel = inr (at, refl)
  full_channel_blocks request at full (receive e) = inl (omega (arith, full, ap length e))

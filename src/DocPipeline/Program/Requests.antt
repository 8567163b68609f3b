-- ===== src/DocPipeline/Program/Requests.antt =====
-- What the generator of `main` has sent, and what waits in its channel.
use Prim.Native.String.{String}
use performance_handbook.Base.{
  ℕ, ◌+◌, ◌≤◌, ◌≡◌, ap, subst, [], ◌∷◌, Option, some, arith, length, length-append, All, All-append,
}
use performance_handbook.Base.Int.{ℤ, pos}
use performance_handbook.DocPipeline.Load.{DataLoadingConfig, generate}
use performance_handbook.DocPipeline.Load.Generator.{
  LoadGenerator, Phase, selecting, pushing, counting, returned, Loading, idle, Step, stop, tick,
  push, count, cancel, receive, Steps, here, next, out_size,
}
use performance_handbook.DocPipeline.Pipeline.{generator_config}

-- A request that was sent and is not counted
abbrev pub uncounted : Phase → ℕ
uncounted selecting = 0
uncounted (pushing request) = 0
uncounted counting = 1
uncounted returned = 0

pub uncounted-le : (phase : Phase) → uncounted phase ≤ 1
uncounted-le phase = ground arith

module _ {κ} {Rng : Type κ} (intn : ℤ → Rng → Option (ℕ × Rng))
    (format_id : String → ℤ → String) where
  -- A request that the generator of `main` makes
  abbrev Made : DataLoadingConfig → Type κ
  Made request =
      (counter : ℤ) × (rng : Rng) × (rng' : Rng) × (generate intn format_id generator_config counter
          rng
        ≡ some (request, rng'))

  abbrev InHand : Phase → Type κ
  InHand selecting = Unit
  InHand (pushing request) = Made request
  InHand counting = Unit
  InHand returned = Unit

  pub record Sending (s : Loading Rng) : Type κ where
    pub same : s.generator.config ≡ generator_config
    pub in_hand : InHand s.phase
    pub made : All Made s.sent
    pub sum : length s.sent ≡ s.generator.counter + uncounted s.phase
    pub short : length s.out ≤ out_size

  Step-Sending : {s t : Loading Rng} → Step intn format_id s t → Sending s → Sending t
  Step-Sending (stop e cancelled) v = record {
    same = v.same;
    in_hand = tt;
    made = v.made;
    sum = omega (arith, v.sum, ap uncounted e);
    short = v.short;
  }
  Step-Sending {s} (tick {request} {rng} e drawn) v = record {
    same = v.same;
    in_hand = (
      pos s.generator.counter,
      s.generator.rng,
      rng,
      subst
          (λ c.
            generate intn format_id c (pos s.generator.counter) s.generator.rng
            ≡ some (request, rng))
          v.same drawn,
    );
    made = v.made;
    sum = omega (arith, v.sum, ap uncounted e);
    short = v.short;
  }
  Step-Sending {s} (push {request} e room) v = record {
    same = v.same;
    in_hand = tt;
    made = All-append Made s.sent (request ∷ []) v.made (subst InHand e v.in_hand, tt);
    sum = omega (arith, v.sum, ap uncounted e, length-append s.sent (request ∷ []));
    short = omega (arith, room, length-append s.out (request ∷ []));
  }
  Step-Sending (count e) v = record {
    same = v.same;
    in_hand = tt;
    made = v.made;
    sum = omega (arith, v.sum, ap uncounted e);
    short = v.short;
  }
  Step-Sending cancel v = record {
    same = v.same;
    in_hand = v.in_hand;
    made = v.made;
    sum = v.sum;
    short = v.short;
  }
  Step-Sending (receive e) v = record {
    same = v.same;
    in_hand = v.in_hand;
    made = v.made;
    sum = v.sum;
    short = omega (arith, v.short, ap length e);
  }

  pub Steps-Sending :
      {l : LoadGenerator Rng} {s : Loading Rng}
      → l.config ≡ generator_config
      → l.counter ≡ 0
      → Steps intn format_id (idle l) s
      → Sending s
  Steps-Sending e zero_yet here = record {
    same = e;
    in_hand = tt;
    made = tt;
    sum = omega (arith, zero_yet);
    short = omega arith;
  }
  Steps-Sending e zero_yet (next r st) = Step-Sending st (Steps-Sending e zero_yet r)

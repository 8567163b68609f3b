-- ===== src/DocPipeline/Load/Generator.antt =====
-- `NewLoadGenerator` and the goroutine of `LoadGenerator.Run`, as a transition system with the
-- receiver of its channel.
pub mod Sequence
mod Tests
use Prim.Native.String.{String}
use performance_handbook.Base.{
  ℕ, ◌+◌, ◌<◌, ◌≡◌, Bool, true, false, List, [], ◌∷◌, ◌++◌, Option, none, some, length,
  if◌then◌else◌,
}
use performance_handbook.Base.Int.{ℤ, pos, ltb_ℤ}
use performance_handbook.DocPipeline.Load.{LoadGeneratorConfig, DataLoadingConfig, generate}

-- `DefaultBufferSize`, and the size of the channel that `Run` makes
abbrev pub default_buffer_size : ℤ
default_buffer_size = pos 100

abbrev pub out_size : ℕ
out_size = 100

-- `LoadGenerator`
pub record LoadGenerator {ℓ} (Rng : Type ℓ) : Type ℓ where
  pub config : LoadGeneratorConfig
  pub buffer_size : ℤ
  pub counter : ℕ
  pub rng : Rng

-- `NewLoadGenerator`
unfoldable pub new_load_generator {ℓ} :
    {Rng : Type ℓ} → LoadGeneratorConfig → ℤ → Rng → LoadGenerator Rng
new_load_generator config buffer_size rng = record {
  config = config;
  buffer_size = if ltb_ℤ (pos 0) buffer_size then buffer_size else default_buffer_size;
  counter = 0;
  rng = rng;
}

-- Where the goroutine stands.
pub data Phase : Type 0 where
  selecting : Phase
  pushing : DataLoadingConfig → Phase  -- at `out <- req`
  counting : Phase  -- before `l.counter++`
  returned : Phase

-- `requests` is the metric; `sent` is all that went into `out`, in order.
pub record Loading {ℓ} (Rng : Type ℓ) : Type ℓ where
  pub generator : LoadGenerator Rng
  pub phase : Phase
  pub cancelled : Bool
  pub out : List DataLoadingConfig
  pub requests : ℕ
  pub sent : List DataLoadingConfig

abbrev pub idle {ℓ} : {Rng : Type ℓ} → LoadGenerator Rng → Loading Rng
idle l = record {
  generator = l;
  phase = selecting;
  cancelled = false;
  out = [];
  requests = 0;
  sent = [];
}

module _ {ℓ} {Rng : Type ℓ} (intn : ℤ → Rng → Option (ℕ × Rng))
    (format_id : String → ℤ → String) where
  pub data Step (s : Loading Rng) : Loading Rng → Type ℓ where
    stop : s.phase ≡ selecting → s.cancelled ≡ true → Step s (record s { phase = returned })
    tick :
        {request : DataLoadingConfig} {rng : Rng}
        → s.phase ≡ selecting
        → generate intn format_id s.generator.config (pos s.generator.counter) s.generator.rng
          ≡ some (request, rng)
        → Step s (record s {
          phase = pushing request;
          requests = s.requests + 1;
          generator = record s.generator { rng = rng };
        })
    push :
        {request : DataLoadingConfig}
        → s.phase ≡ pushing request
        → length s.out < out_size
        → Step s (record s {
          phase = counting;
          out = s.out ++ request ∷ [];
          sent = s.sent ++ request ∷ [];
        })
    count :
        s.phase ≡ counting
        → Step s (record s {
          phase = selecting;
          generator = record s.generator { counter = s.generator.counter + 1 };
        })
    cancel : Step s (record s { cancelled = true })
    receive :
        {request : DataLoadingConfig} {rest : List DataLoadingConfig}
        → s.out ≡ request ∷ rest
        → Step s (record s { out = rest })

  pub data Steps (s : Loading Rng) : Loading Rng → Type ℓ where
    here : Steps s s
    next : {t u : Loading Rng} → Steps s t → Step t u → Steps s u

-- ===== src/DocPipeline/Load/Bounds.antt =====
-- Every request lies within the file, and the draws never panic.
use Prim.Native.String.{String}
use performance_handbook.Base.{
  ℕ, ◌+◌, ◌≤◌, ◌<◌, ◌≡◌, refl, inl, inr, Option, some, zero, suc, arith, Bool-cases,
}
use performance_handbook.Base.Int.{ℤ, pos, negsuc, eqb_ℤ, ◌≤ℤ◌, ◌+ℤ◌, ◌-ℤ◌}
use performance_handbook.DocPipeline.Load.{
  LoadGeneratorConfig, DataLoadingConfig, sizes, choose_size, choose_offset, generate,
}

-- `Intn` answers a number below its argument, if that is positive.
abbrev pub IsIntn {ℓ} : {Rng : Type ℓ} → (ℤ → Rng → Option (ℕ × Rng)) → Type ℓ
IsIntn {Rng} intn =
    (n : ℕ) (rng : Rng)
    → 0 < n
    → (k : ℕ) × (rng' : Rng) × (intn (pos n) rng ≡ some (k, rng')) × (k < n)

sizes_ordered :
    (config : LoadGeneratorConfig)
    → pos 1 ≤ℤ config.file_size
    → (pos 1 ≤ℤ (sizes config).0)
      × ((sizes config).0 ≤ℤ (sizes config).1)
      × ((sizes config).1 ≤ℤ config.file_size)
unfolding sizes
sizes_ordered config h = (ground arith, ground arith, ground arith)

-- A positive integer is `pos` of a number.
pos_of : (z : ℤ) → pos 1 ≤ℤ z → (n : ℕ) × (z ≡ pos n) × (0 < n)
pos_of (pos n) h = (n, refl, omega arith)
pos_of (negsuc n) h = absurd (omega arith)

room : (low high : ℤ) → low ≤ℤ high → pos 1 ≤ℤ high -ℤ low +ℤ pos 1
unfolding ◌+ℤ◌ ◌-ℤ◌
room low high h = ground arith

stays :
    (low high : ℤ) (n k : ℕ)
    → high -ℤ low +ℤ pos 1 ≡ pos n
    → k < n
    → (low ≤ℤ low +ℤ pos k) × (low +ℤ pos k ≤ℤ high)
unfolding ◌+ℤ◌ ◌-ℤ◌
stays low high n k e h = (ground arith, ground arith)

pub nonneg_of : (z : ℤ) → pos 0 ≤ℤ z → (n : ℕ) × (z ≡ pos n)
nonneg_of (pos n) h = (n, refl)
nonneg_of (negsuc n) h = absurd (omega arith)

spare : (a b : ℤ) → b ≤ℤ a → pos 0 ≤ℤ a -ℤ b
unfolding ◌-ℤ◌
spare a b h = ground arith

fits : (a b : ℤ) (m k : ℕ) → a -ℤ b ≡ pos m → k ≤ m → pos k +ℤ b ≤ℤ a
unfolding ◌+ℤ◌ ◌-ℤ◌
fits a b m k e h = ground arith

module _ {ℓ} {Rng : Type ℓ} (intn : ℤ → Rng → Option (ℕ × Rng)) (format_id : String → ℤ → String)
    (law : IsIntn intn) where
  choose_size_within :
      (low high : ℤ) (rng : Rng)
      → low ≤ℤ high
      → (size : ℤ) × (rng' : Rng) × (choose_size intn format_id low high rng ≡ some (size, rng'))
        × (low ≤ℤ size)
        × (size ≤ℤ high)
  unfolding choose_size
  choose_size_within low high rng h = elim (Bool-cases (eqb_ℤ high low)) [
    | inl same ↦ (low, rng, rw same refl, omega arith, h)
    | inr apart ↦
        let (n, is_n, positive) = pos_of (high -ℤ low +ℤ pos 1) (room low high h) in
        let (k, rng', drawn, below) = law n rng positive in
        let (above, within) = stays low high n k is_n below in
        (low +ℤ pos k, rng', rw (apart, is_n, drawn) refl, above, within)
  ]

  offset_drawn :
      (file_size size : ℤ) (rng : Rng) (m k : ℕ) (rng' : Rng)
      → file_size -ℤ size ≡ pos (suc m)
      → intn (pos (suc m + 1)) rng ≡ some (k, rng')
      → choose_offset intn format_id file_size size rng ≡ some (pos k, rng')
  unfolding choose_offset ◌+ℤ◌
  offset_drawn file_size size rng m k rng' e drawn = ground arith

  offset_of_spare :
      (file_size size : ℤ) (rng : Rng) (m : ℕ)
      → file_size -ℤ size ≡ pos m
      → (offset : ℤ) × (rng' : Rng) × (choose_offset intn format_id file_size size rng
          ≡ some (offset, rng'))
        × (pos 0 ≤ℤ offset)
        × (offset +ℤ size ≤ℤ file_size)
  unfolding choose_offset
  offset_of_spare file_size size rng zero e =
      (pos 0, rng, rw e refl, omega arith, fits file_size size 0 0 e (omega arith))
  offset_of_spare file_size size rng (suc m) e =
      let (k, rng', drawn, below) = law (suc m + 1) rng (omega arith) in
      (
        pos k,
        rng',
        offset_drawn file_size size rng m k rng' e drawn,
        omega arith,
        fits file_size size (suc m) k e (omega arith),
      )

  choose_offset_within :
      (file_size size : ℤ) (rng : Rng)
      → size ≤ℤ file_size
      → (offset : ℤ) × (rng' : Rng) × (choose_offset intn format_id file_size size rng
          ≡ some (offset, rng'))
        × (pos 0 ≤ℤ offset)
        × (offset +ℤ size ≤ℤ file_size)
  unfolding choose_offset
  choose_offset_within file_size size rng h =
      let (m, e) = nonneg_of (file_size -ℤ size) (spare file_size size h) in
      offset_of_spare file_size size rng m e

  -- For a file that is not empty: `generateRandomDataLoadingRequest` does not panic, whatever the
  -- other fields of the configuration are; the request has the id made from the prefix and the
  -- counter, and the path; it is for at least one byte and lies within the file.
  pub generate_within :
      (config : LoadGeneratorConfig) (counter : ℤ) (rng : Rng)
      → pos 1 ≤ℤ config.file_size
      → (request : DataLoadingConfig) × (rng' : Rng) × (generate intn format_id config counter rng
          ≡ some (request, rng'))
        × (request.id ≡ format_id config.id_prefix counter)
        × (request.file_path ≡ config.file_path)
        × (pos 0 ≤ℤ request.offset)
        × (pos 1 ≤ℤ request.text_size)
        × (request.offset +ℤ request.text_size ≤ℤ config.file_size)
  unfolding generate
  generate_within config counter rng h =
      let (low, mid, high) = sizes_ordered config h in
      let (size, rng', chosen, above, within) =
        choose_size_within (sizes config).0 (sizes config).1 rng mid in
      let (offset, rng'', placed, least, inside) =
        choose_offset_within config.file_size size rng' (omega arith) in
      let request : DataLoadingConfig = record {
        id = format_id config.id_prefix counter;
        file_path = config.file_path;
        offset = offset;
        text_size = size;
      } in
      (request, rng'', rw (chosen, placed) refl, refl, refl, least, omega arith, inside)

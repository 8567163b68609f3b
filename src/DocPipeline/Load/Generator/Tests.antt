-- ===== src/DocPipeline/Load/Generator/Tests.antt =====
-- One request is sent.
use performance_handbook.Base.{ℕ, refl, arith}
use performance_handbook.Base.Int.{pos, ◌+ℤ◌, ◌-ℤ◌}
use performance_handbook.DocPipeline.Load.{
  DataLoadingConfig, generate, sizes, choose_size, choose_offset,
}
use performance_handbook.DocPipeline.Load.Tests.{greatest, prefix_only, config}
use performance_handbook.DocPipeline.Load.Generator.{
  new_load_generator, Loading, idle, tick, push, count, Steps, here, next,
}

abbrev at_start : Loading ℕ
at_start = idle (new_load_generator config (pos 0) 0)

record Run : Type 0 where
  last : Loading ℕ
  steps : Steps greatest prefix_only at_start last

abbrev a_request : DataLoadingConfig
a_request = record { id = "doc"; file_path = "five"; offset = pos 2; text_size = pos 3 }

one_sent : Run
unfolding new_load_generator generate sizes choose_size choose_offset ◌+ℤ◌ ◌-ℤ◌
one_sent = record {
  last = _;
  steps =
      next
        (next (next here (tick {request = a_request} {rng = 1} refl refl))
          (push refl (omega arith)))
        (count refl);
}

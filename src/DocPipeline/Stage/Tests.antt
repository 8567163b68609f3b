-- ===== src/DocPipeline/Stage/Tests.antt =====
-- One worker, two items: the result of the first is delivered, the second fails.
use performance_handbook.Base.{
  ℕ, ◌+◌, ◌≡◌, ◌⊎◌, refl, false, [], ◌∷◌, Option, none, some, arith, length, ◌==◌, if◌then◌else◌,
}
use performance_handbook.Base.Int.{pos}
use performance_handbook.Base.Totals.{SameItems, filter_map}
use performance_handbook.DocPipeline.Stage.{
  Stage, State, start, worker, see_closed, receive, count_item, call_ok, call_error, count_error,
  record_latency, send, close_out, offer, close_in, consume, Reach, begin, later,
}
use performance_handbook.DocPipeline.Stage.Progress.{Advance, Waiting, no_deadlock}
use performance_handbook.DocPipeline.Stage.Safety.{out_open_for_send, complete}

-- Fails on 3.
abbrev double : ℕ → Option ℕ
double n = if n == 3 then none else some (n + n)

abbrev lone : Stage
lone = record { workers = pos 1; buffer_size = pos 1 }

record Run : Type 0 where
  last : State ℕ ℕ
  reach : Reach double lone last

first_result : Run
unfolding start
first_result = record {
  last = _;
  reach =
      later
        (later
          (later
            (later (later (later begin (offer 5 refl)) (worker [] [] refl (receive refl)))
              (worker [] [] refl count_item))
            (worker [] [] refl (call_ok refl)))
          (worker [] [] refl record_latency))
        (offer 3 refl);
}

drained : Run
unfolding first_result
drained = record {
  last = _;
  reach =
      later
        (later
          (later
            (later
              (later
                (later
                  (later
                    (later (later first_result.reach (worker [] [] refl (send (omega arith))))
                      (worker [] [] refl (receive refl)))
                    (worker [] [] refl count_item))
                  (worker [] [] refl (call_error refl)))
                (worker [] [] refl count_error))
              (close_in refl))
            (worker [] [] refl (see_closed refl refl)))
          (close_out refl refl))
        (consume refl);
}

out_open_for_send_example : first_result.last.out_closed ≡ false
unfolding first_result
out_open_for_send_example = out_open_for_send double lone first_result.reach 5 10 [] [] refl

complete_example :
    SameItems drained.last.consumed (filter_map double (5 ∷ 3 ∷ []))
    × (drained.last.processed ≡ 2)
    × (drained.last.latencies ≡ length drained.last.consumed)
    × (drained.last.errors + drained.last.latencies ≡ drained.last.processed)
unfolding drained
complete_example = complete double lone drained.reach (omega arith) refl refl refl

no_deadlock_example : Advance double 1 first_result.last ⊎ Waiting double 1 first_result.last
unfolding first_result
no_deadlock_example = no_deadlock double lone first_result.reach refl

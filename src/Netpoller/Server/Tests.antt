-- ===== src/Netpoller/Server/Tests.antt =====
-- A connection that is served, and whose read then fails.
use performance_handbook.Base.{refl, [], ◌∷◌}
use performance_handbook.Netpoller.Server.{
  starting, leaving, Serving, first_serving, enter, read_fails, accept, handler, Reach, begin,
  later,
}

abbrev one_leaves : Serving
one_leaves = record { handlers = leaving ∷ starting ∷ []; active = 1; replies = [] }

one_leaves-Reach : Reach (λ b. b) one_leaves
unfolding first_serving
one_leaves-Reach =
    later (later (later (later begin accept) accept) (handler [] (starting ∷ []) refl enter))
      (handler [] (starting ∷ []) refl read_fails)

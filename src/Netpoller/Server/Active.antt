-- ===== src/Netpoller/Server/Active.antt =====
-- The count is the number of connections that are served.
use performance_handbook.Base.{ℕ, ◌+◌, ◌≡◌, ap, List, [], ◌∷◌, ◌++◌, arith}
use performance_handbook.Base.Totals.{total, total-append}
use performance_handbook.Netpoller.Server.{
  do_work, Handler, starting, reading, writing, leaving, closed, Serving, first_serving, Move,
  enter, read, read_fails, write, write_fails, leave, accept, handler, Reach, begin, later,
}

abbrev pub counted : Handler → ℕ
counted starting = 0
counted reading = 1
counted (writing byte) = 1
counted leaving = 1
counted closed = 0

module _ (first_of_sum : ℕ → ℕ) where
  around :
      (s : Serving) (us vs : List Handler) (a : Handler)
      → s.handlers ≡ us ++ a ∷ vs
      → s.active ≡ total counted s.handlers
      → s.active ≡ total counted us + counted a + total counted vs
  around s us vs a e h = omega (arith, h, ap (total counted) e, total-append counted us (a ∷ vs))

  Move-active :
      (s : Serving) (us vs : List Handler) {t : Serving} {a b : Handler}
      → s.handlers ≡ us ++ a ∷ vs
      → Move first_of_sum s a t b
      → s.active ≡ total counted s.handlers
      → t.active ≡ total counted (us ++ b ∷ vs)
  Move-active s us vs e enter h =
      omega (arith, around s us vs starting e h, total-append counted us (reading ∷ vs))
  Move-active s us vs e read h = omega (
    arith,
    around s us vs reading e h,
    total-append counted us (writing (do_work first_of_sum) ∷ vs),
  )
  Move-active s us vs e read_fails h =
      omega (arith, around s us vs reading e h, total-append counted us (leaving ∷ vs))
  Move-active s us vs e (write {byte}) h =
      omega (arith, around s us vs (writing byte) e h, total-append counted us (reading ∷ vs))
  Move-active s us vs e (write_fails {byte}) h =
      omega (arith, around s us vs (writing byte) e h, total-append counted us (leaving ∷ vs))
  Move-active s us vs e leave h =
      omega (arith, around s us vs leaving e h, total-append counted us (closed ∷ vs))

  -- In every state that the server reaches, `active` is the number of goroutines between the two
  -- calls of `AddInt64`: none is missed or counted twice, whichever of its reads and writes fails.
  pub active_exact : {s : Serving} → Reach first_of_sum s → s.active ≡ total counted s.handlers
  unfolding first_serving
  active_exact begin = omega arith
  active_exact (later {s = s} r accept) =
      omega (arith, active_exact r, total-append counted s.handlers (starting ∷ []))
  active_exact (later {s = s} r (handler us vs e m)) = Move-active s us vs e m (active_exact r)

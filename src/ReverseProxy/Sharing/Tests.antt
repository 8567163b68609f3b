-- ===== src/ReverseProxy/Sharing/Tests.antt =====
-- A pool of one connection: a client has got it and all its answers, and another one waits.
use performance_handbook.Base.{◌+◌, ◌≡◌, refl, [], arith}
use performance_handbook.ReverseProxy.Exchange.{requests, write}
use performance_handbook.ReverseProxy.Exchange.Tests.{requests-lines}
use performance_handbook.ReverseProxy.Sharing.{
  Sharing, serve, borrow, exchange, Reach, begin, later,
}
use performance_handbook.ReverseProxy.Sharing.Starving.{pool_starves}

record Run : Type 0 where
  last : Sharing
  reach : Reach requests 1 last

one_served : Run
one_served = record {
  last = _;
  reach =
      later (later (later (later begin serve) serve) (borrow (omega arith) refl))
        (exchange [] [] refl (write refl));
}

pool_starves_example :
    (one_served.last.returned ≡ 0) × (one_served.last.served + one_served.last.idle ≡ 1)
unfolding one_served
pool_starves_example = pool_starves requests requests-lines one_served.reach refl

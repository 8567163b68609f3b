-- ===== src/ReverseProxy/Engine/System/Tests.antt =====
-- A connection with the descriptors 5 and 6 is entered, found and closed.
use performance_handbook.Base.{ℕ, ◌≡◌, ◌⊎◌, inr, refl, Bool, true, false, none, some, arith}
use performance_handbook.ReverseProxy.Engine.{ProxyConn}
use performance_handbook.ReverseProxy.Engine.Pairs.{IsPaired}
use performance_handbook.ReverseProxy.Engine.System.{
  waiting, closing, System, first_system, put_both, set_both, set, take_fds, finalize, enter,
  look_up, close_fds, Reach, begin, later,
}
use performance_handbook.ReverseProxy.Engine.System.Invariant.{table-IsPaired}
use performance_handbook.ReverseProxy.Engine.System.Race.{half_removed}

abbrev five_six : ProxyConn
five_six = record { client_fd = 5; backend_fd = 6 }

abbrev being_closed : System
being_closed = record {
  conns = put_both (λ fd. none) five_six (some five_six);
  in_hand = put_both (put_both (λ fd. none) five_six (some five_six)) five_six none;
  open_fds = set_both (set_both (λ fd. false) five_six true) five_six false;
  finalized = set_both (λ fd. false) five_six false;
  looping = closing five_six;
}

being_closed-Reach : (reuse : Bool) → Reach reuse being_closed
unfolding first_system native.Mathlib.Decide.ℕ_discrete
being_closed-Reach reuse =
    later
      (later
        (later
          (later begin (
            take_fds five_six (λ e. ground arith) refl refl
              (inr ((λ c. ground arith), refl, refl))))
          (enter five_six refl))
        (look_up 5 five_six refl refl))
      (close_fds refl)

-- Both are in the table, and a finalizer has closed 5.
abbrev one_finalized : System
one_finalized = record {
  conns = put_both (λ fd. none) five_six (some five_six);
  in_hand = put_both (put_both (λ fd. none) five_six (some five_six)) five_six none;
  open_fds = set (set_both (λ fd. false) five_six true) 5 false;
  finalized = set (set_both (λ fd. false) five_six false) 5 true;
  looping = waiting;
}

one_finalized-Reach : Reach false one_finalized
unfolding first_system native.Mathlib.Decide.ℕ_discrete
one_finalized-Reach =
    later
      (later
        (later begin
          (take_fds five_six (λ e. ground arith) refl refl (inr ((λ c. ground arith), refl, refl))))
        (enter five_six refl))
      (finalize 5 refl)

table-IsPaired_example :
    IsPaired one_finalized.conns
    × ((fd : ℕ) (pc : ProxyConn)
        → one_finalized.conns fd ≡ some pc
        → ((one_finalized.open_fds fd ≡ true) ⊎ (one_finalized.finalized fd ≡ true))
          ⊎ (one_finalized.looping ≡ closing pc))
table-IsPaired_example = table-IsPaired one_finalized-Reach

half_removed_example :
    (t : System) × Reach true t
    × (t.looping ≡ waiting)
    × (t.conns 5 ≡ none)
    × (t.conns 7 ≡ some (record { client_fd = 5; backend_fd = 7 }))
    × (t.open_fds 5 ≡ true)
unfolding native.Mathlib.Decide.ℕ_discrete
half_removed_example =
    half_removed being_closed five_six 7 (being_closed-Reach true) refl refl refl
      (λ e. ground arith) (λ e. ground arith)

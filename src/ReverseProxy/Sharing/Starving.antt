-- ===== src/ReverseProxy/Sharing/Starving.antt =====
-- No connection comes back.
use performance_handbook.Base.{
  ℕ, ◌+◌, ◌≡◌, ◌≢◌, refl, subst, Bool, true, false, List, [], ◌∷◌, ◌++◌, All, All-append, arith,
  Bytes,
}
use performance_handbook.ReverseProxy.Exchange.{
  ended, Exchange, connected, Reach as Exchanged, begin as connect, later as step,
}
use performance_handbook.ReverseProxy.Exchange.Lines.{IsLine}
use performance_handbook.ReverseProxy.Exchange.Kept.{Reach-Inv}
use performance_handbook.ReverseProxy.Sharing.{
  Sharing, newly_broken, Share, serve, borrow, exchange, give_back, Reach, begin, later,
}

module _ (reqs : List Bytes) where
  -- A session on which nothing has failed
  abbrev Running : Exchange → Type 0
  Running e = Exchanged reqs e × (e.broken ≡ false)

  record Inv (size : ℕ) (s : Sharing) : Type 0 where
    running : All Running s.sessions
    kept : s.returned ≡ 0
    shared : s.served + s.idle ≡ size

  All-middle : (us vs : List Exchange) (e : Exchange) → All Running (us ++ e ∷ vs) → Running e
  All-middle [] vs e h = h.0
  All-middle (u ∷ us) vs e h = All-middle us vs e h.1

  All-put :
      (us vs : List Exchange) (e f : Exchange)
      → Running f
      → All Running (us ++ e ∷ vs)
      → All Running (us ++ f ∷ vs)
  All-put [] vs e f r h = (r, h.1)
  All-put (u ∷ us) vs e f r h = (h.0, All-put us vs e f r h.1)

  still_sound : (b : Bool) → newly_broken false b ≡ 0 → b ≡ false
  still_sound true e = absurd (omega (arith, e))
  still_sound false e = refl

  Running-open : (e : Exchange) → All IsLine reqs → Running e → e.download ≢ ended
  Running-open e lines (r, sound) gone =
      let (held, runs) = ((Reach-Inv reqs lines r).runs sound).2 in cc

  Share-Inv :
      {size : ℕ} {s t : Sharing}
      → All IsLine reqs
      → Share reqs s t
      → t.breaks ≡ 0
      → Inv size s
      → Inv size t
  Share-Inv lines serve none_broken v = record {
    running = v.running;
    kept = v.kept;
    shared = v.shared;
  }
  Share-Inv {s = s} lines (borrow some_waits e) none_broken v = record {
    running = All-append Running s.sessions (connected reqs ∷ []) v.running ((connect, refl), tt);
    kept = v.kept;
    shared = omega (arith, v.shared, e);
  }
  Share-Inv {s = s} lines (exchange us vs {e} {f} at st) none_broken v =
      let all = subst (All Running) at v.running in
      let (r, sound) = All-middle us vs e all in
      let none_new : newly_broken e.broken f.broken ≡ 0 = omega (arith, none_broken) in
      let sound' : f.broken ≡ false =
        still_sound f.broken (subst (λ b. newly_broken b f.broken ≡ 0) sound none_new) in
      record {
        running = All-put us vs e f (step r st, sound') all;
        kept = v.kept;
        shared = v.shared;
      }
  Share-Inv lines (give_back us vs e at gone) none_broken v =
      absurd (Running-open e lines (All-middle us vs e (subst (All Running) at v.running)) gone)

  unbroken_before : {s t : Sharing} → Share reqs s t → t.breaks ≡ 0 → s.breaks ≡ 0
  unbroken_before serve e = e
  unbroken_before (borrow some_waits f) e = e
  unbroken_before (exchange us vs at st) e = omega (arith, e)
  unbroken_before (give_back us vs x at gone) e = e

  Reach-Sharing :
      {size : ℕ} {s : Sharing} → All IsLine reqs → Reach reqs size s → s.breaks ≡ 0 → Inv size s
  Reach-Sharing lines begin e = record { running = tt; kept = refl; shared = omega arith }
  Reach-Sharing lines (later r st) e =
      Share-Inv lines st e (Reach-Sharing lines r (unbroken_before st e))

  -- For requests that are lines, and a pool of any size, in any state that the clients, the proxy and
  -- the backend reach while no connection has failed: no connection was ever given back, also when
  -- clients have got all answers and closed; the clients that were served and the connections in the
  -- pool are together the size of the pool.
  pub pool_starves :
      {size : ℕ} {s : Sharing}
      → All IsLine reqs
      → Reach reqs size s
      → s.breaks ≡ 0
      → (s.returned ≡ 0) × (s.served + s.idle ≡ size)
  pool_starves lines r none_broken = let v = Reach-Sharing lines r none_broken in (v.kept, v.shared)

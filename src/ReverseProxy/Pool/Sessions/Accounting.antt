-- ===== src/ReverseProxy/Pool/Sessions/Accounting.antt =====
-- Where every connection is, with either connector.
use performance_handbook.Base.{
  ℕ, suc, ◌+◌, ◌≡◌, refl, ap, subst, Bool-cases, inl, inr, List, [], ◌∷◌, ◌++◌, Option, none, some,
  arith, length, length-append, ltb, true,
}
use performance_handbook.Base.Totals.{total, SameItems, total-append}
use performance_handbook.ReverseProxy.Pool.{
  Network, ConnPool, dial, get, give_back, Connector, always_dial, pooled, connector_get,
  connector_return,
}
use performance_handbook.ReverseProxy.Pool.Sessions.{
  Sessions, Step, serve, get_fails, borrow, finish, upload_ends, Steps, here, next, opening, idle,
  Full,
}

pub record Inv (s : Sessions) : Type 0 where
  pub places :
      (w : ℕ → ℕ)
      → total w s.net.opened ≡ total w (idle s.connector) + total w s.lent + total w s.net.closed
  pub full : Full s.connector (length s.lent)

abbrev weight : (ℕ → ℕ) → Option ℕ → ℕ
weight w none = 0
weight w (some conn) = w conn

-- The connector is still a pool of the size that it had, and the network is as it was.
abbrev pub Pooled : ConnPool → Network → Connector → Network → Type 0
Pooled cp net always_dial net' = ⊥
Pooled cp net (pooled cp') net' = (cp'.size ≡ cp.size) × (net' ≡ net)

-- What a `Get` that returns does to the places of the connections.
abbrev pub Got : Connector → Network → Option (Option ℕ × Connector × Network) → Type 0
Got c net none = Unit
Got c net (some (answer, c', net')) =
    ((w : ℕ → ℕ)
      → total w net'.opened + total w (idle c)
        ≡ total w net.opened + total w (idle c') + weight w answer)
    × (net'.closed ≡ net.closed)
    × ((n : ℕ) → Full c n → Full c' (n + weight (λ _. 1) answer))
    × ((cp : ConnPool) (old : Network) → Pooled cp old c net → Pooled cp old c' net')

dial-Got :
    (net : Network) (dials : List (Option ℕ))
    → net.dials ≡ dials
    → Got always_dial net (connector_get always_dial net)
unfolding connector_get
dial-Got net [] e = rw (e, dial) tt
dial-Got net (none ∷ rest) e = rw (e, dial) (λ w. omega arith, refl, λ n h. tt, λ cp old h. h)
dial-Got net (some conn ∷ rest) e =
    rw (e, dial)
      (λ w. omega (arith, total-append w net.opened (conn ∷ [])), refl, λ n h. tt, λ cp old h. h)

pooled-Got :
    (cp : ConnPool) (net : Network) (pool : List ℕ)
    → cp.pool ≡ pool
    → Got (pooled cp) net (connector_get (pooled cp) net)
unfolding connector_get
pooled-Got cp net [] e = rw (e, get) tt
pooled-Got cp net (conn ∷ rest) e =
    rw (e, get)
      (
        λ w. omega (arith, ap (total w) e),
        refl,
        λ n h. omega (arith, h, ap length e),
        λ cp' old h. h,
      )

pub connector_get-Got : (c : Connector) (net : Network) → Got c net (connector_get c net)
connector_get-Got always_dial net = dial-Got net net.dials refl
connector_get-Got (pooled cp) net = pooled-Got cp net cp.pool refl

-- A `Return` of a lent connection puts it into the pool if there is one, and closes it if not. It
-- never closes a connection because the pool is full.
abbrev Returned : Connector → ℕ → Network → Connector × Network → Type 0
Returned c conn net (c', net') =
    ((w : ℕ → ℕ)
      → total w (idle c') + total w net'.closed ≡ total w (idle c) + total w net.closed + w conn)
    × (net'.opened ≡ net.opened)

connector_return-Returned :
    (c : Connector) (conn : ℕ) (net : Network) → Returned c conn net (connector_return c conn net)
unfolding connector_return give_back
connector_return-Returned always_dial conn net =
    (λ w. omega (arith, total-append w net.closed (conn ∷ [])), refl)
connector_return-Returned (pooled cp) conn net = elim (Bool-cases (ltb (length cp.pool) cp.size)) [
  | inl room ↦ rw room (λ w. omega (arith, total-append w cp.pool (conn ∷ [])), refl)
  | inr full ↦ rw full (λ w. omega (arith, total-append w net.closed (conn ∷ [])), refl)
]

connector_return-Full :
    (c : Connector) (conn : ℕ) (net : Network) (n : ℕ)
    → Full c (suc n)
    → Full (connector_return c conn net).0 n
unfolding connector_return give_back
connector_return-Full always_dial conn net n h = tt
connector_return-Full (pooled cp) conn net n h =
    let room : ltb (length cp.pool) cp.size ≡ true = ground arith in
    rw room (omega (arith, h, length-append cp.pool (conn ∷ [])))

pub connector_return-Pooled :
    (cp : ConnPool) (old : Network) (c : Connector) (conn : ℕ) (net : Network) (n : ℕ)
    → Full c (suc n)
    → Pooled cp old c net
    → Pooled cp old (connector_return c conn net).0 (connector_return c conn net).1
unfolding connector_return give_back
connector_return-Pooled cp old always_dial conn net n h p = absurd p
connector_return-Pooled cp old (pooled cp') conn net n h p =
    let room : ltb (length cp'.pool) cp'.size ≡ true = ground arith in rw room p

Step-Inv : {s t : Sessions} → Step s t → Inv s → Inv t
Step-Inv serve v = record { places = v.places; full = v.full }
Step-Inv {s} (get_fails some_waits e) v =
    let (places, closed, full, _) =
      subst (Got s.connector s.net) e (connector_get-Got s.connector s.net) in
    record {
      places = λ w. omega (arith, places w, v.places w, ap (total w) closed);
      full = subst (Full _) (omega arith) (full _ v.full);
    }
Step-Inv {s} (borrow {conn} some_waits e) v =
    let (places, closed, full, _) =
      subst (Got s.connector s.net) e (connector_get-Got s.connector s.net) in
    record {
      places = λ w.
          omega
            (arith, places w, v.places w, ap (total w) closed, total-append w s.lent (conn ∷ []));
      full = subst (Full _) (omega (arith, length-append s.lent (conn ∷ []))) (full _ v.full);
    }
Step-Inv {s} (finish us conn vs e) v =
    let (places, opened) = connector_return-Returned s.connector conn s.net in
    record {
      places = λ w. omega (
        arith,
        places w,
        v.places w,
        ap (total w) opened,
        ap (total w) e,
        total-append w us (conn ∷ vs),
        total-append w us vs,
      );
      full = connector_return-Full s.connector conn s.net (length (us ++ vs)) (
          subst (Full s.connector)
            (omega (arith, ap length e, length-append us (conn ∷ vs), length-append us vs)) v.full);
    }
Step-Inv (upload_ends us conn vs e) v = record { places = v.places; full = v.full }

pub Steps-Inv : {s t : Sessions} → Steps s t → Inv s → Inv t
Steps-Inv here v = v
Steps-Inv (next r st) v = Step-Inv st (Steps-Inv r v)

pub opening-Inv :
    (c : Connector) (net : Network)
    → SameItems net.opened (idle c ++ net.closed)
    → Full c 0
    → Inv (opening c net)
opening-Inv c net start full = record {
  places = λ w. omega (arith, start w, total-append w (idle c) net.closed);
  full = full;
}

-- With either connector, whatever the clients do: each connection that was opened is in the pool,
-- lent to one client, or closed, and in one of these places only. (At the start, each is in the
-- pool or closed, and a pool is full.)
pub connections_accounted :
    (c : Connector) (net : Network) {t : Sessions}
    → SameItems net.opened (idle c ++ net.closed)
    → Full c 0
    → Steps (opening c net) t
    → SameItems t.net.opened (idle t.connector ++ t.lent ++ t.net.closed)
connections_accounted c net {t} start full r = λ w. omega (
  arith,
  (Steps-Inv r (opening-Inv c net start full)).places w,
  total-append w (idle t.connector ++ t.lent) t.net.closed,
  total-append w (idle t.connector) t.lent,
)

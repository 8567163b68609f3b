-- ===== src/ReverseProxy/Pool/Sessions/Overlap.antt =====
-- A connection that is lent while the last session still writes into it.
use performance_handbook.Base.{
  ℕ, ◌+◌, ◌<◌, ◌≡◌, refl, sym, ap, ◌∙◌, subst, List, [], ◌∷◌, ◌++◌, append_assoc, append-nil, arith,
  length, length-append,
}
use performance_handbook.ReverseProxy.Pool.{
  Network, ConnPool, get, give_back, pooled, connector_get, connector_return,
}
use performance_handbook.ReverseProxy.Pool.Sessions.{
  Sessions, serve, borrow, finish, Steps, here, next, opening,
}

Steps-join : {s t u : Sessions} → Steps s t → Steps t u → Steps s u
Steps-join r here = r
Steps-join r (next q st) = next (Steps-join r q) st

-- A state in which `pool` is left of the connections, and nobody waits
abbrev state : ℕ → Network → ℕ → List ℕ → List ℕ → List ℕ → Sessions
state size net gone pool lent uploads = record {
  connector = pooled (record { size = size; pool = pool });
  net = net;
  waiting = 0;
  lent = lent;
  uploads = uploads;
  gone = gone;
}

module _ (size : ℕ) (net : Network) where
  lend_one :
      (gone x : ℕ) (pool lent uploads : List ℕ)
      → Steps
          (state size net gone (x ∷ pool) lent uploads)
          (state size net gone pool (lent ++ x ∷ []) (uploads ++ x ∷ []))
  unfolding connector_get get
  lend_one gone x pool lent uploads =
      next (next here serve)
        (borrow {c = pooled (record { size = size; pool = pool })} {net = net} (omega arith) refl)

  -- As many clients come as `xs` has connections, and each gets one.
  lend :
      (gone : ℕ) (xs pool lent uploads : List ℕ)
      → Steps
          (state size net gone (xs ++ pool) lent uploads)
          (state size net gone pool (lent ++ xs) (uploads ++ xs))
  lend gone [] pool lent uploads = rw (append-nil lent, append-nil uploads) here
  lend gone (x ∷ xs) pool lent uploads =
      let rest = lend gone xs pool (lent ++ x ∷ []) (uploads ++ x ∷ []) in
      let target : List ℕ → List ℕ → Type 0 = λ l u.
        Steps (state size net gone (xs ++ pool) (lent ++ x ∷ []) (uploads ++ x ∷ []))
          (state size net gone pool l u) in
      Steps-join (lend_one gone x (xs ++ pool) lent uploads) (
        subst (λ l. target l (uploads ++ x ∷ xs)) (append_assoc lent (x ∷ []) xs)
          (subst (λ u. target ((lent ++ x ∷ []) ++ xs) u) (append_assoc uploads (x ∷ []) xs) rest))

  -- A session ends on the side of the backend.
  give :
      (gone x : ℕ) (pool us vs uploads : List ℕ)
      → length pool < size
      → Steps
          (state size net gone pool (us ++ x ∷ vs) uploads)
          (state size net (gone + 1) (pool ++ x ∷ []) (us ++ vs) uploads)
  unfolding connector_return give_back
  give gone x pool us vs uploads room =
      let back : connector_return (pooled (record { size = size; pool = pool })) x net
          ≡ (pooled (record { size = size; pool = pool ++ x ∷ [] }), net) =
        ground arith in
      subst
        (λ r.
          Steps (state size net gone pool (us ++ x ∷ vs) uploads)
            (record (state size net (gone + 1) (pool ++ x ∷ []) (us ++ vs) uploads) {
              connector = r.0;
              net = r.1;
            }))
        back (next here (finish us x vs refl))

-- For every pool that is filled and every connection of it: the engine can come from its start to a
-- state in which one session has the connection, while two goroutines copy into it, each from
-- another client. As many clients come as the pool has connections, and each gets one; the copy to
-- the client of this one ends, but not the copy from it; and one client more gets the connection.
pub upload_outlives_session :
    (cp : ConnPool) (net : Network) (us vs : List ℕ) (conn : ℕ)
    → cp.pool ≡ us ++ conn ∷ vs
    → length cp.pool ≡ cp.size
    → (t : Sessions) × Steps (opening (pooled cp) net) t
      × (t.lent ≡ (us ++ vs) ++ conn ∷ [])
      × (t.uploads ≡ (us ++ conn ∷ vs) ++ conn ∷ [])
upload_outlives_session cp net us vs conn e full =
    let all = us ++ conn ∷ vs in
    let lent_all : Steps (state cp.size net 0 (all ++ []) [] []) (state cp.size net 0 [] all all) =
      lend cp.size net 0 all [] [] [] in
    let start : Steps (opening (pooled cp) net) (state cp.size net 0 [] all all) =
      subst (λ pool. Steps (state cp.size net 0 pool [] []) (state cp.size net 0 [] all all))
        (append-nil all ∙ sym e) lent_all in
    let room : 0 < cp.size = omega (arith, full, ap length e, length-append us (conn ∷ vs)) in
    let back = give cp.size net 0 conn [] us vs all room in
    let again = lend_one cp.size net 1 conn [] (us ++ vs) all in
    (_, Steps-join start (Steps-join back again), refl, refl)

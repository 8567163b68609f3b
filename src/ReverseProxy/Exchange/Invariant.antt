-- ===== src/ReverseProxy/Exchange/Invariant.antt =====
-- Where the client is, and what is on its way to it; kept by every step.
use performance_handbook.Base.{
  ◌≡◌, ◌⊎◌, inl, inr, refl, sym, ap, subst, ◌∙◌, Bool, true, false, Bool-cases, List, [], ◌∷◌, ◌++◌,
  append_assoc, append-nil, All, none, Bytes,
}
use performance_handbook.ReverseProxy.Exchange.{
  Client, sending, awaiting, failing, closed, Copy, copying, Exchange, Cut, on_read, split_line,
}
use performance_handbook.ReverseProxy.Exchange.Lines.{IsLine, append-eq-nil, split_line-prefix}
use performance_handbook.ReverseProxy.Exchange.Flow.{behind, back, flow, Covers}

abbrev pub IsRunning : Copy → Type 0
IsRunning c = (held : Bytes) × (c ≡ copying held)

-- Without a failure, a copy returns only when the client has closed.
abbrev pub Runs : Exchange → Type 0
Runs s = (IsRunning s.upload ⊎ (s.client ≡ closed)) × IsRunning s.echo × IsRunning s.download

module _ (reqs : List Bytes) where
  -- Some of the requests, from the first on
  abbrev pub Started : List Bytes → Type 0
  Started printed = (rest : List Bytes) × (printed ++ rest ≡ reqs)

  abbrev pub Talks : Client → List Bytes → Bytes → Bool → Type 0
  Talks (sending rest) printed on_way broken =
      (printed ++ rest ≡ reqs) × All IsLine rest × (on_way ≡ [])
  Talks (awaiting request got rest) printed on_way broken =
      (printed ++ request ∷ rest ≡ reqs)
      × All IsLine (request ∷ rest)
      × Covers request (got ++ on_way)
      × (broken ≡ false → request ≡ got ++ on_way)
      × (split_line got ≡ none)
  Talks (failing rest) printed on_way broken = Started printed × (broken ≡ true)
  Talks closed printed on_way broken =
      Started printed × (broken ≡ false → (printed ≡ reqs) × (on_way ≡ []))

  pub record Inv (s : Exchange) : Type 0 where
    pub talks : Talks s.client s.printed (flow s) s.broken
    pub runs : s.broken ≡ false → Runs s

  -- What is on its way may be cut off at its end, if something has failed.
  pub Talks-less :
      (c : Client) (printed : List Bytes) (broken : Bool) {xs ys : Bytes}
      → Covers xs ys
      → (broken ≡ false → xs ≡ ys)
      → Talks c printed xs broken
      → Talks c printed ys broken
  Talks-less (sending rest) printed broken {ys = ys} k same (e, lines, empty) =
      (e, lines, (append-eq-nil ys k.lost (sym k.kept ∙ empty)).0)
  Talks-less (awaiting request got rest) printed broken {ys = ys} k same
        (e, lines, j, whole, unread) =
      (
        e,
        lines,
        record { lost = k.lost ++ j.lost; kept = j.kept ∙ rw k.kept (simp append_assoc) },
        λ sound. whole sound ∙ ap (λ z. got ++ z) (same sound),
        unread,
      )
  Talks-less (failing rest) printed broken k same h = h
  Talks-less closed printed broken k same (started, ends) =
      (started, λ sound. ((ends sound).0, sym (same sound) ∙ (ends sound).1))

  pub Cut-broken : {s : Exchange} → Inv s → Cut s → s.broken ≡ true
  Cut-broken v (inl broken) = broken
  Cut-broken {s} v (inr returned) = elim (Bool-cases s.broken) [
    | inl broken ↦ broken
    | inr sound ↦ let runs = (v.runs sound).2.1 in cc
  ]

  abbrev pub Fits : Exchange → Type 0
  Fits s = Talks s.client s.printed (flow s) s.broken

  -- The answer, as far as it has come
  pub read-Fits :
      (s : Exchange) (request got chunk rest : Bytes) (more : List Bytes)
      → s.to_client ≡ chunk ++ rest
      → Talks (awaiting request got more) s.printed (flow s) s.broken
      → Fits (
          on_read
            (record s { to_client = rest })
            request
            (got ++ chunk)
            more
            (split_line (got ++ chunk)))
  read-Fits s request got chunk rest more e (asked, lines, k, whole, unread) =
      let coming = rest ++ behind s.download (back s) in
      let joined : got ++ flow s ≡ (got ++ chunk) ++ coming = rw e (simp append_assoc) in
      let all_of_it : request ≡ (got ++ chunk) ++ (coming ++ k.lost) =
        k.kept ∙ rw joined (append_assoc (got ++ chunk) coming k.lost) in
      elim (split_line-prefix (got ++ chunk) (coming ++ k.lost) (subst IsLine all_of_it lines.0)) [
        | inl none_yet ↦ rw none_yet (
          asked,
          lines,
          record { lost = k.lost; kept = k.kept ∙ rw joined refl },
          λ sound. whole sound ∙ joined,
          none_yet,
        )
        | inr (line, over) ↦
            let request_read : request ≡ got ++ chunk =
              all_of_it ∙ rw over (append-nil (got ++ chunk)) in
            rw line (
              append_assoc s.printed ((got ++ chunk) ∷ []) more ∙ rw (← request_read) asked,
              lines.1,
              (append-eq-nil coming k.lost over).0,
            )
      ]

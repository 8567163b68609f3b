-- ===== src/ReverseProxy/Exchange/Settling.antt =====
-- Where the exchange comes to rest.
use performance_handbook.Base.{
  ◌<◌, ◌≡◌, ◌⊎◌, inl, inr, refl, sym, ◌∙◌, subst, false, List, [], ◌∷◌, ◌++◌, append-nil, All,
  Bytes, length, arith, Option, none, some,
}
use performance_handbook.ReverseProxy.Exchange.{
  Client, sending, awaiting, failing, closed, Copy, copying, ended, Exchange, on_read, split_line,
  Step, write, read, close, upload_reads, upload_writes, upload_eof, echo_reads, echo_writes,
  download_reads, download_writes, Reach,
}
use performance_handbook.ReverseProxy.Exchange.Lines.{IsLine}
use performance_handbook.ReverseProxy.Exchange.Flow.{flow}
use performance_handbook.ReverseProxy.Exchange.Invariant.{Talks, Inv}
use performance_handbook.ReverseProxy.Exchange.Kept.{Reach-Inv}
use performance_handbook.ReverseProxy.Exchange.Cost.{exchange_cost, Step-cost}

abbrev pub MovesOn : Exchange → Type 0
MovesOn s = (t : Exchange) × Step s t × (t.broken ≡ false)

nil_or : (xs : Bytes) → (xs ≡ []) ⊎ (0 < length xs)
nil_or [] = inl refl
nil_or (x ∷ xs) = inr (omega arith)

whole_chunk : {xs : Bytes} → xs ≡ xs ++ []
whole_chunk {xs} = sym (append-nil xs)

on_read-broken :
    (s : Exchange) (request p : Bytes) (more : List Bytes) (o : Option (Bytes × Bytes))
    → (on_read s request p more o).broken ≡ s.broken
on_read-broken s request p more none = refl
on_read-broken s request p more (some (line, over)) = refl

-- The bytes that come back, or nothing does.
back_moves :
    (s : Exchange) (d e : Bytes)
    → s.download ≡ copying d
    → s.echo ≡ copying e
    → s.broken ≡ false
    → MovesOn s ⊎ (d ≡ []) × (e ≡ []) × (s.from_backend ≡ []) × (s.to_backend ≡ [])
back_moves s d e down at sound = elim (nil_or d) [
  | inr held ↦ inl (_, download_writes down held, sound)
  | inl no_d ↦ elim (nil_or e) [
    | inr held ↦ inl (_, echo_writes at held, sound)
    | inl no_e ↦ elim (nil_or s.from_backend) [
      | inr more ↦
          inl (_, download_reads s.from_backend [] (rw (← no_d) down) whole_chunk more, sound)
      | inl no_from ↦ elim (nil_or s.to_backend) [
        | inr more ↦ inl (_, echo_reads s.to_backend [] (rw (← no_e) at) whole_chunk more, sound)
        | inl no_to ↦ inr (no_d, no_e, no_from, no_to)
      ]
    ]
  ]
]

module _ (reqs : List Bytes) where
  -- The client is done, its upload has ended, and the session waits for the backend.
  abbrev pub LeftOpen : Exchange → Type 0
  LeftOpen s =
      (s.client ≡ closed)
      × (s.printed ≡ reqs)
      × (s.upload ≡ ended)
      × (s.download ≡ copying [])
      × (s.echo ≡ copying [])

  -- No byte is on its way but in the last stream.
  abbrev Quiet : Exchange → Type 0
  Quiet s =
      (s.download ≡ copying [])
      × (s.echo ≡ copying [])
      × (s.upload ≡ copying [])
      × (s.from_backend ≡ [])
      × (s.to_backend ≡ [])
      × (s.to_proxy ≡ [])

  client_moves :
      (s : Exchange) (c : Client)
      → s.client ≡ c
      → Talks reqs c s.printed (flow s) s.broken
      → s.broken ≡ false
      → Quiet s
      → MovesOn s
  client_moves s (sending []) e h sound q = (_, close e, sound)
  client_moves s (sending (request ∷ rest)) e h sound q = (_, write e, sound)
  client_moves s (awaiting request got rest) e (asked, lines, k, whole, unread) sound q =
      elim (nil_or s.to_client) [
        | inr answer ↦ (
          _,
          read s.to_client [] e whole_chunk answer,
          on_read-broken (record s { to_client = [] }) request (got ++ s.to_client) rest
                (split_line (got ++ s.to_client))
              ∙ sound,
        )
        | inl no_answer ↦
            let (down, at, up, from, to, proxy) = q in
            let no_flow : flow s ≡ [] = rw (no_answer, down, at, up, from, to, proxy) refl in
            let all_read : request ≡ got = whole sound ∙ rw no_flow (append-nil got) in
            let line : split_line got ≡ some (request, []) = rw (← all_read) lines.0 in absurd (cc)
      ]
  client_moves s (failing rest) e (started, broken) sound q = absurd (cc)
  client_moves s closed e h sound q =
      let (down, at, up, from, to, proxy) = q in (_, upload_eof up proxy e, sound)

  front_moves :
      (s : Exchange) (u : Copy)
      → s.upload ≡ u
      → Inv reqs s
      → s.broken ≡ false
      → (s.download ≡ copying [])
        × (s.echo ≡ copying [])
        × (s.from_backend ≡ [])
        × (s.to_backend ≡ [])
      → MovesOn s ⊎ LeftOpen s
  front_moves s (copying held) up v sound (down, at, from, to) = elim (nil_or held) [
    | inr some_held ↦ inl (_, upload_writes up some_held, sound)
    | inl no_held ↦ elim (nil_or s.to_proxy) [
      | inr more ↦ inl (_, upload_reads s.to_proxy [] (rw (← no_held) up) whole_chunk more, sound)
      | inl no_more ↦ inl (
          client_moves s s.client refl v.talks sound
            (down, at, rw (← no_held) up, from, to, no_more))
    ]
  ]
  front_moves s ended up v sound (down, at, from, to) = elim ((v.runs sound).0) [
    | inl (held, runs) ↦ absurd (cc)
    | inr gone ↦
        let talks = subst (λ c. Talks reqs c s.printed (flow s) s.broken) gone v.talks in
        inr (gone, (talks.1 sound).0, up, down, at)
  ]

  -- For requests that are lines, and in any state that the client, the proxy and the backend reach
  -- while no connection has failed: some program can make a step that is no failure, or the client
  -- has printed all its requests and has closed, and the copy to it, which holds nothing,
  -- still runs: the session neither returns the backend connection nor closes the client's. And
  -- every step, a failure too, lessens the number `exchange_cost`.
  pub comes_to_rest :
      {s : Exchange}
      → All IsLine reqs
      → Reach reqs s
      → s.broken ≡ false
      → (MovesOn s ⊎ LeftOpen s) × ((t : Exchange) → Step s t → exchange_cost t < exchange_cost s)
  comes_to_rest {s} lines r sound =
      let v = Reach-Inv reqs lines r in
      let (uploads, (e, at), (d, down)) = v.runs sound in
      (
        elim (back_moves s d e down at sound) [
          | inl moves ↦ inl moves
          | inr (no_d, no_e, from, to) ↦
              front_moves s s.upload refl v sound (rw (← no_d) down, rw (← no_e) at, from, to)
        ],
        λ t st. Step-cost st,
      )

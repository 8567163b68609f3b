-- ===== src/ReverseProxy/Exchange/Kept.antt =====
-- Every step keeps the invariant.
use performance_handbook.Base.{
  ◌<◌, ◌≡◌, ◌≢◌, ◌⊎◌, inl, inr, refl, sym, ap, subst, ◌∙◌, Bool, true, false, Bool-cases, List, [],
  ◌∷◌, ◌++◌, append_assoc, append-nil, All, none, some, Bytes, length, arith, Option,
}
use performance_handbook.ReverseProxy.Exchange.{
  Client, sending, awaiting, failing, closed, Copy, copying, ended, Exchange, on_read, split_line,
  Step, write, write_fails, read, read_fails, fail_again, close, close_failed, upload_reads,
  upload_writes, upload_eof, upload_fails, echo_reads, echo_writes, echo_ends, download_reads,
  download_writes, download_eof, download_fails, download_breaks, breaks, Reach, begin, later,
}
use performance_handbook.ReverseProxy.Exchange.Lines.{IsLine, append-eq-nil}
use performance_handbook.ReverseProxy.Exchange.Flow.{
  behind, onward, back, flow, Covers, append-Covers, behind-Covers, flow-follows, flow-append,
}
use performance_handbook.ReverseProxy.Exchange.Invariant.{
  Talks, IsRunning, Runs, Inv, Fits, Talks-less, read-Fits, Cut-broken,
}

-- A failure loses the end of what is on its way.
ends_keep : (a : Bytes) (c : Copy) (xs : Bytes) → Covers (a ++ behind c xs) (a ++ behind ended xs)
ends_keep a c xs = append-Covers a (record { lost = behind c xs; kept = refl })

still_uploads :
    (s : Exchange) (c d : Client)
    → Runs s
    → s.client ≡ c
    → c ≢ closed
    → IsRunning s.upload ⊎ (d ≡ closed)
still_uploads s c d w e open_yet = elim w.0 [
  | inl held ↦ inl held
  | inr gone ↦ absurd (open_yet (sym e ∙ gone))
]

on_read-Runs :
    (s : Exchange) (request p : Bytes) (more : List Bytes) (o : Option (Bytes × Bytes))
    → (s.broken ≡ false → Runs s)
    → ((d : Client) → s.broken ≡ false → IsRunning s.upload ⊎ (d ≡ closed))
    → (on_read s request p more o).broken ≡ false
    → Runs (on_read s request p more o)
on_read-Runs s request p more none w up sound = (up _ sound, (w sound).1, (w sound).2)
on_read-Runs s request p more (some (line, over)) w up sound =
    (up _ sound, (w sound).1, (w sound).2)

module _ (reqs : List Bytes) where
  at_client :
      {s : Exchange} {c : Client}
      → Inv reqs s
      → s.client ≡ c
      → Talks reqs c s.printed (flow s) s.broken
  at_client {s} v e = subst (λ c. Talks reqs c s.printed (flow s) s.broken) e v.talks

  -- For a client that is where it was
  carried :
      {s : Exchange} {ys : Bytes}
      → Inv reqs s
      → flow s ≡ ys
      → Talks reqs s.client s.printed ys s.broken
  carried {s} v e = subst (λ ys. Talks reqs s.client s.printed ys s.broken) e v.talks

  cut_off :
      {s : Exchange} {ys : Bytes}
      → Inv reqs s
      → s.broken ≡ true
      → Covers (flow s) ys
      → Talks reqs s.client s.printed ys s.broken
  cut_off {s} v broken k =
      Talks-less reqs s.client s.printed s.broken k (λ sound. absurd (ground arith)) v.talks

  upload_less : (s : Exchange) → Covers (flow s) (flow (record s { upload = ended }))
  upload_less s = append-Covers s.to_client (
      behind-Covers s.download (
        append-Covers s.from_backend
          (behind-Covers s.echo (ends_keep s.to_backend s.upload s.to_proxy))))

  echo_less : (s : Exchange) → Covers (flow s) (flow (record s { echo = ended }))
  echo_less s =
      append-Covers s.to_client
        (behind-Covers s.download (ends_keep s.from_backend s.echo (onward s)))

  download_less : (s : Exchange) → Covers (flow s) (flow (record s { download = ended }))
  download_less s = ends_keep s.to_client s.download (back s)

  write-Fits :
      (s : Exchange) (request : Bytes) (rest : List Bytes)
      → Inv reqs s
      → s.client ≡ sending (request ∷ rest)
      → Fits reqs (record s { client = awaiting request [] rest; to_proxy = s.to_proxy ++ request })
  unfolding split_line
  write-Fits s request rest v e =
      let (asked, lines, empty) = at_client v e in
      let k = flow-follows request s in
      let alone : flow s ++ request ≡ request = rw empty refl in
      (
        asked,
        lines,
        record { lost = k.lost; kept = sym alone ∙ k.kept },
        λ sound. elim ((v.runs sound).0) [
          | inl (held, up) ↦
              let (uploads, (e_held, echoes), (d_held, downloads)) = v.runs sound in
              sym alone ∙ flow-append request s held e_held d_held up echoes downloads
          | inr gone ↦ absurd (cc)
        ],
        refl,
      )

  echo-broken : {s : Exchange} → Inv reqs s → s.echo ≡ ended → s.broken ≡ true
  echo-broken {s} v e = elim (Bool-cases s.broken) [
    | inl broken ↦ broken
    | inr sound ↦ let runs = (v.runs sound).1.1 in cc
  ]

  -- Nothing is on its way to a client that has closed.
  held-broken :
      {s : Exchange} {held : Bytes}
      → Inv reqs s
      → s.download ≡ copying held
      → 0 < length held
      → s.client ≡ closed
      → s.broken ≡ true
  held-broken {s} {held} v e some_bytes c = elim (Bool-cases s.broken) [
    | inl broken ↦ broken
    | inr sound ↦
        let empty = ((at_client v c).1 sound).1 in
        let behind_client = (append-eq-nil s.to_client (behind s.download (back s)) empty).1 in
        let held_back : held ++ back s ≡ [] = subst (λ d. behind d (back s) ≡ []) e behind_client in
        let nothing = ap length (append-eq-nil held (back s) held_back).0 in absurd (omega arith)
  ]

  Talks-broken :
      (c : Client) (printed : List Bytes) (on_way : Bytes) (broken : Bool)
      → Talks reqs c printed on_way broken
      → Talks reqs c printed on_way true
  Talks-broken (sending rest) printed on_way broken h = h
  Talks-broken (awaiting request got rest) printed on_way b (asked, lines, k, whole, unread) =
      (asked, lines, k, λ sound. cc, unread)
  Talks-broken (failing rest) printed on_way b (started, broken) = (started, refl)
  Talks-broken closed printed on_way b (started, ends) = (started, λ sound. cc)

  Step-Fits : {s t : Exchange} → Inv reqs s → Step s t → Fits reqs t
  Step-Fits {s} v (write {request} {reqs = rest} e) = write-Fits s request rest v e
  Step-Fits {s} v (write_fails {request} {reqs = rest} e cut) =
      ((request ∷ rest, (at_client v e).0), Cut-broken reqs v cut)
  Step-Fits {s} v (read {request} {got} {reqs = more} chunk rest e f some_bytes) =
      read-Fits reqs s request got chunk rest more f (at_client v e)
  Step-Fits {s} v (read_fails {request} {got} {reqs = rest} e cut) =
      ((request ∷ rest, (at_client v e).0), Cut-broken reqs v cut)
  Step-Fits {s} v (fail_again e) = at_client v e
  Step-Fits {s} v (close e) =
      let (asked, lines, empty) = at_client v e in
      (([], asked), λ sound. (sym (append-nil s.printed) ∙ asked, empty))
  Step-Fits {s} v (close_failed e) =
      let (started, broken) = at_client v e in (started, λ sound. absurd (ground arith))
  Step-Fits {s} v (upload_reads chunk rest e f some_bytes) = carried v (rw (e, f) refl)
  Step-Fits {s} v (upload_writes {held} e some_bytes) = carried v (rw e (simp append_assoc))
  Step-Fits {s} v (upload_eof e f c) = carried v (rw (e, f) refl)
  Step-Fits {s} v (upload_fails {held} e cut) = cut_off v (Cut-broken reqs v cut) (upload_less s)
  Step-Fits {s} v (echo_reads chunk rest e f some_bytes) = carried v (rw (e, f) (simp append_assoc))
  Step-Fits {s} v (echo_writes {held} e some_bytes) = carried v (rw e (simp append_assoc))
  Step-Fits {s} v (echo_ends {held} e cut) = cut_off v (Cut-broken reqs v cut) (echo_less s)
  Step-Fits {s} v (download_reads chunk rest e f some_bytes) =
      carried v (rw (e, f) (simp append_assoc))
  Step-Fits {s} v (download_writes {held} e some_bytes) = carried v (rw e (simp append_assoc))
  Step-Fits {s} v (download_eof e f c) = cut_off v (echo-broken v c) (download_less s)
  Step-Fits {s} v (download_fails {held} e some_bytes c) =
      cut_off v (held-broken v e some_bytes c) (download_less s)
  Step-Fits {s} v (download_breaks {held} e broken) = cut_off v broken (download_less s)
  Step-Fits {s} v (breaks e) = Talks-broken s.client s.printed (flow s) s.broken v.talks

  Step-Runs : {s t : Exchange} → Inv reqs s → Step s t → t.broken ≡ false → Runs t
  Step-Runs {s} v (write e) sound =
      let w = v.runs sound in (still_uploads s _ _ w e (λ h. cc), w.1, w.2)
  Step-Runs {s} v (write_fails e cut) sound =
      let w = v.runs sound in (still_uploads s _ _ w e (λ h. cc), w.1, w.2)
  Step-Runs {s} v (read {request} {got} {reqs = more} chunk rest e f some_bytes) sound =
      on_read-Runs (record s { to_client = rest }) request (got ++ chunk) more
        (split_line (got ++ chunk)) v.runs (λ d h. still_uploads s _ d (v.runs h) e (λ closing. cc))
        sound
  Step-Runs {s} v (read_fails e cut) sound =
      let w = v.runs sound in (still_uploads s _ _ w e (λ h. cc), w.1, w.2)
  Step-Runs {s} v (fail_again e) sound =
      let w = v.runs sound in (still_uploads s _ _ w e (λ h. cc), w.1, w.2)
  Step-Runs {s} v (close e) sound = let w = v.runs sound in (inr refl, w.1, w.2)
  Step-Runs {s} v (close_failed e) sound = let w = v.runs sound in (inr refl, w.1, w.2)
  Step-Runs {s} v (upload_reads chunk rest e f some_bytes) sound =
      let w = v.runs sound in (inl (chunk, refl), w.1, w.2)
  Step-Runs {s} v (upload_writes e some_bytes) sound =
      let w = v.runs sound in (inl ([], refl), w.1, w.2)
  Step-Runs {s} v (upload_eof e f c) sound = let w = v.runs sound in (inr c, w.1, w.2)
  Step-Runs {s} v (upload_fails e cut) sound = let broken = Cut-broken reqs v cut in cc
  Step-Runs {s} v (echo_reads chunk rest e f some_bytes) sound =
      let w = v.runs sound in (w.0, (chunk, refl), w.2)
  Step-Runs {s} v (echo_writes e some_bytes) sound = let w = v.runs sound in (w.0, ([], refl), w.2)
  Step-Runs {s} v (echo_ends e cut) sound = let broken = Cut-broken reqs v cut in cc
  Step-Runs {s} v (download_reads chunk rest e f some_bytes) sound =
      let w = v.runs sound in (w.0, w.1, (chunk, refl))
  Step-Runs {s} v (download_writes e some_bytes) sound =
      let w = v.runs sound in (w.0, w.1, ([], refl))
  Step-Runs {s} v (download_eof e f c) sound = let broken = echo-broken v c in cc
  Step-Runs {s} v (download_fails e some_bytes c) sound =
      let broken = held-broken v e some_bytes c in cc
  Step-Runs {s} v (download_breaks e broken) sound = cc
  Step-Runs {s} v (breaks e) sound = cc

  Step-Inv : {s t : Exchange} → Inv reqs s → Step s t → Inv reqs t
  Step-Inv v st = record { talks = Step-Fits v st; runs = Step-Runs v st }

  pub Reach-Inv : {s : Exchange} → All IsLine reqs → Reach reqs s → Inv reqs s
  Reach-Inv lines begin = record {
    talks = (refl, lines, refl);
    runs = λ sound. (inl ([], refl), ([], refl), ([], refl));
  }
  Reach-Inv lines (later r st) = Step-Inv (Reach-Inv lines r) st

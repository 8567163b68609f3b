-- ===== src/LogAggregator/Wire/RoundTrip.antt =====
-- What is published over a stream is collected, once and in order; over datagrams, what arrives.
use mathlib.Core.List.{map}
use performance_handbook.Base.{
  ℕ, zero, suc, ◌+◌, ◌≤◌, ◌<◌, ◌≡◌, ◌⊎◌, inl, inr, refl, sym, ap, ◌∙◌, List, [], ◌∷◌, ◌++◌,
  append_assoc, append-nil, Option, none, some, arith, Bytes, take, length, All, length-append,
  take_whole,
}
use performance_handbook.LogAggregator.Wire.{
  LogEntry, new_line, write, unmarshal_and_write, receive_all, receive_stream, receive_datagrams,
  write_output,
}

-- The lines of a stream, each ended by a newline.
abbrev pub joined : List Bytes → Bytes
joined [] = []
joined (line ∷ lines) = (line ++ new_line ∷ []) ++ joined lines

-- A line that a scanner with its default buffer can hold: no control characters, and shorter than
-- the buffer of 64 KB.
abbrev pub IsLine : Bytes → Type 0
IsLine line = All (λ b. 32 ≤ b) line × (length line + 1 < 65536)

-- The scanner answers the lines of a stream of such lines.
abbrev pub IsScan : (Bytes → List Bytes) → Type 0
IsScan scan = (lines : List Bytes) → All IsLine lines → scan (joined lines) ≡ lines

-- An entry that is encoded as a line from which it is decoded again, with or without the newline
-- that ends it.
pub record Encodable (marshal : LogEntry → Option Bytes) (unmarshal : Bytes → Option LogEntry)
    (entry : LogEntry) : Type 0 where
  pub text : Bytes
  pub encoded : marshal entry ≡ some text
  pub decoded : unmarshal text ≡ some entry
  pub decoded_line : unmarshal (text ++ new_line ∷ []) ≡ some entry
  pub is_line : IsLine text

-- `Write` of a connection for datagrams succeeds; `sent_on` are those that went out, in order.
abbrev pub Takes : {Conn : Type 0} → (Conn → Bytes → Option Conn) → (Conn → List Bytes) → Type 0
Takes {Conn = Conn} send sent_on =
    (conn : Conn) (b : Bytes)
    → (conn' : Conn) × (send conn b ≡ some conn') × (sent_on conn' ≡ sent_on conn ++ b ∷ [])

abbrev pub nth {ℓ} : {A : Type ℓ} → List A → ℕ → Option A
nth [] i = none
nth (x ∷ xs) zero = some x
nth (x ∷ xs) (suc i) = nth xs i

-- What arrives of `xs`, by the numbers of the arrivals: a number may be missing, come twice or out
-- of order; where there is no such number in `xs`, nothing arrives.
unfoldable pub pick {ℓ} : {A : Type ℓ} → List A → List ℕ → List A
pick xs [] = []
pick xs (i ∷ order) = elim (nth xs i) [ none ↦ pick xs order | some x ↦ x ∷ pick xs order ]

pick_missing {ℓ} :
    {A : Type ℓ} (xs : List A) (i : ℕ) (order : List ℕ)
    → nth xs i ≡ none
    → pick xs (i ∷ order) ≡ pick xs order
unfolding pick
pick_missing xs i order e = rw (e, pick) refl

pick_found {ℓ} :
    {A : Type ℓ} (xs : List A) (i : ℕ) (order : List ℕ) (x : A)
    → nth xs i ≡ some x
    → pick xs (i ∷ order) ≡ x ∷ pick xs order
unfolding pick
pick_found xs i order x e = rw (e, pick) refl

module _ (marshal : LogEntry → Option Bytes) (unmarshal : Bytes → Option LogEntry) where
  abbrev texts : (entries : List LogEntry) → All (Encodable marshal unmarshal) entries → List Bytes
  texts [] hs = []
  texts (e ∷ es) hs = hs.0.text ∷ texts es hs.1

  texts-IsLine :
      (es : List LogEntry) (hs : All (Encodable marshal unmarshal) es) → All IsLine (texts es hs)
  texts-IsLine [] hs = tt
  texts-IsLine (e ∷ es) hs = (hs.0.is_line, texts-IsLine es hs.1)

  write_step :
      {Conn : Type 0} (send : Conn → Bytes → Option Conn) (conn conn' : Conn) (e : LogEntry)
      (es : List LogEntry) (text : Bytes)
      → marshal e ≡ some text
      → send conn (text ++ new_line ∷ []) ≡ some conn'
      → write marshal send conn (e ∷ es) ≡ write marshal send conn' es
  unfolding write
  write_step send conn conn' e es text encoded sent = rw (encoded, sent) refl

  output_step :
      (file : Bytes) (e : LogEntry) (es : List LogEntry) (text : Bytes)
      → marshal e ≡ some text
      → write_output marshal (λ held b. held ++ b) file (e ∷ es)
        ≡ write_output marshal (λ held b. held ++ b) (file ++ (text ++ new_line ∷ [])) es
  unfolding write_output
  output_step file e es text encoded = rw (encoded, write_output) refl

  receive_step :
      (payload : Bytes) (payloads : List Bytes) (events : List LogEntry) (e : LogEntry)
      → unmarshal payload ≡ some e
      → receive_all unmarshal (payload ∷ payloads) events
        ≡ receive_all unmarshal payloads (events ++ e ∷ [])
  unfolding receive_all unmarshal_and_write
  receive_step payload payloads events e decoded = rw (decoded, unmarshal_and_write) refl

  -- A stream takes the lines one behind the other.
  write_stream :
      (conn : Bytes) (es : List LogEntry) (hs : All (Encodable marshal unmarshal) es)
      → write marshal (λ sent b. some (sent ++ b)) conn es ≡ some (conn ++ joined (texts es hs))
  unfolding write
  write_stream conn [] hs = simp append-nil
  write_stream conn (e ∷ es) hs =
      write_step (λ sent b. some (sent ++ b)) conn (conn ++ (hs.0.text ++ new_line ∷ [])) e es
        hs.0.text hs.0.encoded refl
      ∙ (write_stream (conn ++ (hs.0.text ++ new_line ∷ [])) es hs.1
          ∙ ap (λ all. some all)
              (append_assoc conn (hs.0.text ++ new_line ∷ []) (joined (texts es hs.1))))

  -- So does the writer of the file output.
  write_file :
      (file : Bytes) (es : List LogEntry) (hs : All (Encodable marshal unmarshal) es)
      → write_output marshal (λ held b. held ++ b) file es ≡ file ++ joined (texts es hs)
  unfolding write_output
  write_file file [] hs = simp append-nil
  write_file file (e ∷ es) hs =
      output_step file e es hs.0.text hs.0.encoded
      ∙ (write_file (file ++ (hs.0.text ++ new_line ∷ [])) es hs.1
          ∙ append_assoc file (hs.0.text ++ new_line ∷ []) (joined (texts es hs.1)))

  receive_texts :
      (events es : List LogEntry) (hs : All (Encodable marshal unmarshal) es)
      → receive_all unmarshal (texts es hs) events ≡ events ++ es
  unfolding receive_all unmarshal_and_write
  receive_texts events [] hs = simp append-nil
  receive_texts events (e ∷ es) hs =
      receive_step hs.0.text (texts es hs.1) events e hs.0.decoded
      ∙ (receive_texts (events ++ e ∷ []) es hs.1 ∙ append_assoc events (e ∷ []) es)

  -- For entries that are encoded as lines from which they are decoded again, on a connection that
  -- takes all that is written: `write` does not panic; the receiver of the stream sends on just
  -- these entries, in order; and the file output gives its writer the stream, byte for byte.
  pub stream_round_trip :
      (scan : Bytes → List Bytes) (entries : List LogEntry)
      → IsScan scan
      → All (Encodable marshal unmarshal) entries
      → (text : Bytes) × (write marshal (λ sent b. some (sent ++ b)) [] entries ≡ some text)
        × (receive_stream unmarshal scan text [] ≡ entries)
        × (write_output marshal (λ held b. held ++ b) [] entries ≡ text)
  unfolding receive_stream
  stream_round_trip scan entries law hs = (
    joined (texts entries hs),
    write_stream [] entries hs,
    rw (law (texts entries hs) (texts-IsLine entries hs)) (receive_texts [] entries hs),
    write_file [] entries hs,
  )

  -- An entry whose line, with its newline, fits into the buffer of the datagram receivers.
  abbrev pub Fits : LogEntry → Type 0
  Fits entry = (e : Encodable marshal unmarshal entry) × (length e.text + 1 ≤ 8192)

  -- The datagrams as the socket takes them
  abbrev datagrams : (entries : List LogEntry) → All Fits entries → List Bytes
  datagrams [] hs = []
  datagrams (e ∷ es) hs = (hs.0.0.text ++ new_line ∷ []) ∷ datagrams es hs.1

  length-datagrams : (es : List LogEntry) (hs : All Fits es) → length (datagrams es hs) ≡ length es
  length-datagrams [] hs = refl
  length-datagrams (e ∷ es) hs = ap (λ n. suc n) (length-datagrams es hs.1)

  write_datagrams :
      {Conn : Type 0} (send : Conn → Bytes → Option Conn) (sent_on : Conn → List Bytes)
      → Takes send sent_on
      → (conn : Conn) (es : List LogEntry) (hs : All Fits es)
      → (last : Conn) × (write marshal send conn es ≡ some last)
        × (sent_on last ≡ sent_on conn ++ datagrams es hs)
  unfolding write
  write_datagrams send sent_on law conn [] hs = (conn, refl, sym (append-nil (sent_on conn)))
  write_datagrams send sent_on law conn (e ∷ es) hs =
      let line = hs.0.0.text ++ new_line ∷ [] in
      let (conn', went, kept) = law conn line in
      let (last, wrote, all) = write_datagrams send sent_on law conn' es hs.1 in
      (
        last,
        write_step send conn conn' e es hs.0.0.text hs.0.0.encoded went ∙ wrote,
        all
            ∙ (ap (λ before. before ++ datagrams es hs.1) kept
                ∙ append_assoc (sent_on conn) (line ∷ []) (datagrams es hs.1)),
      )

  -- One number of the order, and the datagram and the entry that it stands for
  read_nth :
      (es : List LogEntry) (hs : All Fits es) (i : ℕ)
      → ((nth (datagrams es hs) i ≡ none) × (nth es i ≡ none))
        ⊎ ((line : Bytes) × (e : LogEntry) × (nth (datagrams es hs) i ≡ some line)
            × (nth es i ≡ some e)
            × (unmarshal (take 8192 line) ≡ some e))
  read_nth [] hs i = inl (refl, refl)
  read_nth (e ∷ es) ((h, short), hs) zero =
      let line = h.text ++ new_line ∷ [] in
      let whole : take 8192 line ≡ line =
        take_whole 8192 line (omega (arith, length-append h.text (new_line ∷ []))) in
      inr (line, e, refl, refl, ap unmarshal whole ∙ h.decoded_line)
  read_nth (e ∷ es) hs (suc i) = read_nth es hs.1 i

  receive_picked :
      (es : List LogEntry) (hs : All Fits es) (order : List ℕ) (events : List LogEntry)
      → receive_datagrams unmarshal (pick (datagrams es hs) order) events ≡ events ++ pick es order
  unfolding receive_datagrams pick
  receive_picked es hs [] events = sym (append-nil events)
  receive_picked es hs (i ∷ order) events = elim (read_nth es hs i) [
    | inl (no_line, no_entry) ↦
        ap (λ ds. receive_datagrams unmarshal ds events)
          (pick_missing (datagrams es hs) i order no_line)
        ∙ (receive_picked es hs order events
            ∙ ap (λ more. events ++ more) (sym (pick_missing es i order no_entry)))
    | inr (line, e, at, entry, decoded) ↦
        ap (λ ds. receive_datagrams unmarshal ds events)
          (pick_found (datagrams es hs) i order line at)
        ∙ (receive_step (take 8192 line) (map (take 8192) (pick (datagrams es hs) order)) events e
              decoded
            ∙ (receive_picked es hs order (events ++ e ∷ [])
                ∙ (append_assoc events (e ∷ []) (pick es order)
                    ∙ ap (λ more. events ++ more) (sym (pick_found es i order e entry)))))
  ]

  -- For entries that are encoded as lines of at most 8191 bytes, from which they are decoded again
  -- with or without the newline, and a connection whose `Write` succeeds and sends each text as one
  -- datagram: `write` ends without a panic, with one datagram for each entry. Whichever of the
  -- datagrams arrive, in whatever order, and however often each: the receiver sends on just the
  -- entries of those that arrive, once for each arrival, in the order in which they arrive.
  pub datagram_round_trip :
      {Conn : Type 0} (send : Conn → Bytes → Option Conn) (sent_on : Conn → List Bytes)
      (conn : Conn) (entries : List LogEntry) (order : List ℕ)
      → Takes send sent_on
      → sent_on conn ≡ []
      → All Fits entries
      → (last : Conn) × (write marshal send conn entries ≡ some last)
        × (length (sent_on last) ≡ length entries)
        × (receive_datagrams unmarshal (pick (sent_on last) order) [] ≡ pick entries order)
  datagram_round_trip send sent_on conn entries order law fresh hs =
      let (last, wrote, all) = write_datagrams send sent_on law conn entries hs in
      let sent : sent_on last ≡ datagrams entries hs =
        all ∙ ap (λ before. before ++ datagrams entries hs) fresh in
      (
        last,
        wrote,
        ap length sent ∙ length-datagrams entries hs,
        ap (λ ds. receive_datagrams unmarshal (pick ds order) []) sent
            ∙ receive_picked entries hs order [],
      )

-- ===== src/LogAggregator/Collecting/Storage.antt =====
-- What an aggregator has stored when it returns.
use performance_handbook.Base.{
  ◌≡◌, inl, inr, refl, sym, ap, ◌∙◌, subst, Bool, true, false, List, [], ◌∷◌, ◌++◌, append_assoc,
  Option, none, some, arith, Bytes, take, Option-cases,
}
use performance_handbook.LogAggregator.Wire.{
  LogEntry, Buffered, new_line, write_output, file_output,
}
use performance_handbook.LogAggregator.Registry.{Receiver, Aggregator}
use performance_handbook.LogAggregator.Collecting.{
  Listener, Agent, accepting, scanning, Collector, creating, ranging, stored, Collecting,
  first_collecting, Move, opens, accept_fails, scan_line, scan_end, read_datagram, send, Step,
  agent, accept, interrupt, created, collect, finish, return, Reach, begin, later,
}

-- A `bufio.Writer` on a file that takes all that is written: `accepted` is the file with what the
-- writer still holds, and only `Flush` brings that to the file.
pub record IsBuffered {File Writer : Type 0} (out : Buffered File Writer) (bytes : File → Bytes)
    (accepted : Writer → Bytes) : Type 0 where
  pub starts : (file : File) → accepted (out.new_writer file) ≡ bytes file
  pub takes :
      (writer : Writer) (b : Bytes) → accepted (out.write_string writer b) ≡ accepted writer ++ b
  pub flushes : (writer : Writer) → bytes (out.flush writer) ≡ accepted writer

module _ {File Writer : Type 0} (l : Listener) (marshal : LogEntry → Option Bytes)
    (unmarshal : Bytes → Option LogEntry) (create : Option File) (out : Buffered File Writer) where
  -- The writer of a collector, when `taken` has been received, and then the file
  abbrev pub Stores : List LogEntry → Collector File Writer → Type 0
  Stores taken creating = taken ≡ []
  Stores taken (ranging writer) =
      (first : File) × (create ≡ some first)
      × (writer ≡ write_output marshal out.write_string (out.new_writer first) taken)
  Stores taken (stored file) =
      (first : File) × (create ≡ some first) × (file ≡ file_output marshal out first taken)

  abbrev pub is_stored : Collector File Writer → Bool
  is_stored creating = false
  is_stored (ranging writer) = false
  is_stored (stored file) = true

  pub record Inv (s : Collecting File Writer) : Type 0 where
    pub taken : List LogEntry
    pub passed : s.sent ≡ taken ++ s.events
    pub stores : Stores taken s.collector
    pub ends : is_stored s.collector ≡ true → (s.events ≡ []) × (s.closed ≡ true)
    pub returns : s.returned ≡ true → is_stored s.collector ≡ true

  -- The file output goes on where it has stopped.
  write_output-append :
      (writer : Writer) (xs ys : List LogEntry)
      → write_output marshal out.write_string writer (xs ++ ys)
        ≡ write_output marshal out.write_string (write_output marshal out.write_string writer xs) ys
  unfolding write_output
  write_output-append writer [] ys = refl
  write_output-append writer (x ∷ xs) ys = elim (Option-cases (marshal x)) [
    | inl fails ↦ ground (arith, write_output-append writer xs ys)
    | inr (b, encoded) ↦
        ground (arith, write_output-append (out.write_string writer (b ++ new_line ∷ [])) xs ys)
  ]

  elsewhere :
      {s : Collecting File Writer} (agents : List Agent) (payloads : List Bytes)
      → Inv s
      → Inv (record s { agents = agents; payloads = payloads })
  elsewhere agents payloads v = record {
    taken = v.taken;
    passed = v.passed;
    stores = v.stores;
    ends = v.ends;
    returns = v.returns;
  }

  -- Of what the collector uses, a goroutine that receives touches only the channel.
  Move-Inv :
      (r : Receiver) {s t : Collecting File Writer} {a b : Agent} (agents : List Agent)
      → Move l marshal unmarshal create out r s a t b
      → Inv s
      → Inv (record t { agents = agents })
  Move-Inv r {s} agents (opens starts) v = elsewhere agents s.payloads v
  Move-Inv r {s} agents accept_fails v = elsewhere agents s.payloads v
  Move-Inv r {s} agents (scan_line {line}) v = elsewhere agents (s.payloads ++ line ∷ []) v
  Move-Inv r {s} agents scan_end v = elsewhere agents s.payloads v
  Move-Inv r {s} agents (read_datagram datagram) v =
      elsewhere agents (s.payloads ++ take 8192 datagram ∷ []) v
  Move-Inv r {s} agents (send {entry} not_closed room) v = record {
    taken = v.taken;
    passed = ap (λ all. all ++ entry ∷ []) v.passed ∙ append_assoc v.taken s.events (entry ∷ []);
    stores = v.stores;
    ends = λ o. absurd (ground (arith, (v.ends o).1, not_closed));
    returns = v.returns;
  }

  collect_more :
      (taken : List LogEntry) (writer : Writer) (entry : LogEntry)
      → Stores taken (ranging writer)
      → Stores
          (taken ++ entry ∷ [])
          (ranging (write_output marshal out.write_string writer (entry ∷ [])))
  collect_more taken writer entry (first, made, held) = (
    first,
    made,
    ap (λ w. write_output marshal out.write_string w (entry ∷ [])) held
        ∙ sym (write_output-append (out.new_writer first) taken (entry ∷ [])),
  )

  flush_all :
      (taken : List LogEntry) (writer : Writer)
      → Stores taken (ranging writer)
      → Stores taken (stored (out.flush writer))
  unfolding file_output
  flush_all taken writer (first, made, held) = (first, made, ap out.flush held)

  Step-Inv :
      (r : Receiver) {s t : Collecting File Writer}
      → s.returned ≡ false
      → Step l marshal unmarshal create out r s t
      → Inv s
      → Inv t
  unfolding write_output
  Step-Inv r not_yet (agent us vs {a} {b} e m) v = Move-Inv r (us ++ b ∷ vs) m v
  Step-Inv r {s} not_yet (accept us vs text e) v =
      elsewhere (us ++ accepting ∷ scanning (l.scan text) ∷ vs) s.payloads v
  Step-Inv r not_yet (interrupt e) v = record {
    taken = v.taken;
    passed = v.passed;
    stores = v.stores;
    ends = λ o. ((v.ends o).0, refl);
    returns = v.returns;
  }
  Step-Inv r {s} not_yet (created {file} e made) v = record {
    taken = v.taken;
    passed = v.passed;
    stores = (
      file,
      made,
      sym (
          ap (write_output marshal out.write_string (out.new_writer file))
            (subst (Stores v.taken) e v.stores)),
    );
    ends = λ o. absurd (ground arith);
    returns = λ o. absurd (ground arith);
  }
  Step-Inv r {s} not_yet (collect {writer} {entry} {rest} e next) v = record {
    taken = v.taken ++ entry ∷ [];
    passed =
        v.passed
        ∙ (ap (λ events. v.taken ++ events) next ∙ sym (append_assoc v.taken (entry ∷ []) rest));
    stores = collect_more v.taken writer entry (subst (Stores v.taken) e v.stores);
    ends = λ o. absurd (ground arith);
    returns = λ o. absurd (ground arith);
  }
  Step-Inv r {s} not_yet (finish {writer} e empty shut) v = record {
    taken = v.taken;
    passed = v.passed;
    stores = flush_all v.taken writer (subst (Stores v.taken) e v.stores);
    ends = λ o. (empty, shut);
    returns = λ o. refl;
  }
  Step-Inv r {s} not_yet (return {file} e) v = record {
    taken = v.taken;
    passed = v.passed;
    stores = v.stores;
    ends = v.ends;
    returns = λ o. ap is_stored e;
  }

  pub Reach-Inv :
      (a : Aggregator) {s : Collecting File Writer}
      → Reach l marshal unmarshal create out a s
      → Inv s
  unfolding first_collecting
  Reach-Inv a begin = record {
    taken = [];
    passed = refl;
    stores = refl;
    ends = λ o. absurd (ground arith);
    returns = λ o. absurd (ground arith);
  }
  Reach-Inv a (later r not_yet st) = Step-Inv a.receiver not_yet st (Reach-Inv a r)

  -- The text of the entries, a line for each that can be encoded
  abbrev pub encoded_lines : List LogEntry → Bytes
  encoded_lines [] = []
  encoded_lines (e ∷ es) = elim (marshal e) [
    | none ↦ encoded_lines es
    | some b ↦ (b ++ new_line ∷ []) ++ encoded_lines es
  ]

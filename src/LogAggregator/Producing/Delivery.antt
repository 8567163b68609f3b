-- ===== src/LogAggregator/Producing/Delivery.antt =====
-- What a producer has published when it returns.
use mathlib.Core.List.{map, map-append}
use performance_handbook.Base.{
  ◌≡◌, inl, inr, refl, sym, ap, ◌∙◌, subst, Bool, true, false, List, [], ◌∷◌, ◌++◌, append_assoc,
  append-nil, Option, some, arith, Bytes, Option-cases,
}
use performance_handbook.LogAggregator.Wire.{
  LogEntry, new_line, message_of_size, entry_at, produce, write,
}
use performance_handbook.LogAggregator.Registry.{Producer}
use performance_handbook.LogAggregator.Producing.{
  Dialer, connect, Phase, selecting, pushing, waiting, returned, Publishing, connecting, ranging,
  writing, finished, Producing, first_producing, publish, write_one, Step, tick, push, timeout,
  dialled, take_event, wrote, see_closed, joined, Reach, begin, later,
}

-- The entry that the sender holds, and the one that the publisher holds.
abbrev pub pending : Phase → List LogEntry
pending selecting = []
pending (pushing entry) = entry ∷ []
pending waiting = []
pending returned = []

abbrev pub in_hand : {Conn : Type 0} → Publishing Conn → List LogEntry
in_hand connecting = []
in_hand (ranging conn) = []
in_hand (writing conn entry) = entry ∷ []
in_hand (finished conn) = []

-- The channel is closed when the sender waits for the publisher, or has done so.
abbrev pub is_shut : Phase → Bool
is_shut selecting = false
is_shut (pushing entry) = false
is_shut waiting = true
is_shut returned = true

abbrev pub is_over : {Conn : Type 0} → Publishing Conn → Bool
is_over connecting = false
is_over (ranging conn) = false
is_over (writing conn entry) = false
is_over (finished conn) = true

module _ {Conn Address : Type 0} (d : Dialer Conn Address) (marshal : LogEntry → Option Bytes)
    (p : Producer) (msg : Bytes) where
  -- The connection, after the entries in `written`.
  abbrev pub Carries : List LogEntry → Conn → Type 0
  Carries written conn =
      (first : Conn) × (connect d p.publisher ≡ some first)
      × (write marshal d.send first written ≡ some conn)

  abbrev pub Publishes : List LogEntry → Publishing Conn → Type 0
  Publishes written connecting = written ≡ []
  Publishes written (ranging conn) = Carries written conn
  Publishes written (writing conn entry) = Carries written conn
  Publishes written (finished conn) = (last : Conn) × (conn ≡ d.close last) × Carries written last

  -- What the goroutines hold, one behind the other.
  abbrev pub all_of : List LogEntry → Publishing Conn → List LogEntry → Phase → List LogEntry
  all_of written at events phase = written ++ (in_hand at ++ (events ++ pending phase))

  pub record Inv (s : Producing Conn) : Type 0 where
    pub written : List LogEntry
    pub split : map (entry_at msg) s.ticks ≡ all_of written s.publishing s.events s.phase
    pub closes : s.closed ≡ is_shut s.phase
    pub joins : s.phase ≡ returned → is_over s.publishing ≡ true
    pub ends : is_over s.publishing ≡ true → (s.events ≡ []) × (s.closed ≡ true)
    pub publishes : Publishes written s.publishing

  -- Writing goes on where it has stopped.
  write-append :
      (conn conn' : Conn) (xs ys : List LogEntry)
      → write marshal d.send conn xs ≡ some conn'
      → write marshal d.send conn (xs ++ ys) ≡ write marshal d.send conn' ys
  unfolding write
  write-append conn conn' [] ys e = ground arith
  write-append conn conn' (x ∷ xs) ys e = elim (Option-cases (marshal x)) [
    | inl fails ↦ ground arith
    | inr (b, encoded) ↦ elim (Option-cases (d.send conn (b ++ new_line ∷ []))) [
      | inl fails ↦ ground arith
      | inr (next, sent) ↦ ground (arith, write-append next conn' xs ys)
    ]
  ]

  Carries-more :
      (written : List LogEntry) {conn conn' : Conn} (entry : LogEntry)
      → Carries written conn
      → write_one d marshal conn entry ≡ some conn'
      → Carries (written ++ entry ∷ []) conn'
  Carries-more written {conn} entry (first, connected, wrote_all) one =
      (first, connected, write-append first conn written (entry ∷ []) wrote_all ∙ one)

  -- A new entry comes last.
  all_of-tick :
      (written events : List LogEntry) (at : Publishing Conn) (entry : LogEntry)
      → all_of written at events selecting ++ entry ∷ [] ≡ all_of written at events (pushing entry)
  all_of-tick written events at entry = simp (append_assoc, append-nil)

  all_of-push :
      (written events : List LogEntry) (at : Publishing Conn) (entry : LogEntry)
      → all_of written at events (pushing entry)
        ≡ all_of written at (events ++ entry ∷ []) selecting
  all_of-push written events at entry = simp (append_assoc, append-nil)

  Step-Inv : {s t : Producing Conn} → Step d marshal p msg s t → Inv s → Inv t
  unfolding write
  Step-Inv {s} (tick time e) v = record {
    written = v.written;
    split =
        map-append (entry_at msg) s.ticks (time ∷ [])
        ∙ (ap (λ all. all ++ entry_at msg time ∷ [])
              (v.split ∙ ap (all_of v.written s.publishing s.events) e)
            ∙ all_of-tick v.written s.events s.publishing (entry_at msg time));
    closes = v.closes ∙ ap is_shut e;
    joins = λ r. absurd (ground arith);
    ends = v.ends;
    publishes = v.publishes;
  }
  Step-Inv {s} (push {entry} e room) v = record {
    written = v.written;
    split =
        v.split
        ∙ (ap (all_of v.written s.publishing s.events) e
            ∙ all_of-push v.written s.events s.publishing entry);
    closes = v.closes ∙ ap is_shut e;
    joins = λ r. absurd (ground arith);
    ends = λ o. absurd (ground (arith, (v.ends o).1, v.closes ∙ ap is_shut e));
    publishes = v.publishes;
  }
  Step-Inv {s} (timeout e) v = record {
    written = v.written;
    split = v.split ∙ ap (all_of v.written s.publishing s.events) e;
    closes = refl;
    joins = λ r. absurd (ground arith);
    ends = λ o. ((v.ends o).0, refl);
    publishes = v.publishes;
  }
  Step-Inv {s} (dialled {conn} e connected) v = record {
    written = v.written;
    split = v.split ∙ ap (λ at. all_of v.written at s.events s.phase) e;
    closes = v.closes;
    joins = λ r. sym (ap is_over e) ∙ v.joins r;
    ends = λ o. absurd (ground arith);
    publishes = (
      conn,
      connected,
      ap (write marshal d.send conn) (subst (Publishes v.written) e v.publishes),
    );
  }
  Step-Inv {s} (take_event {conn} {entry} {rest} e next) v = record {
    written = v.written;
    split =
        v.split
        ∙ (ap (λ at. all_of v.written at s.events s.phase) e
            ∙ ap (λ events. all_of v.written (ranging conn) events s.phase) next);
    closes = v.closes;
    joins = λ r. sym (ap is_over e) ∙ v.joins r;
    ends = λ o. absurd (ground arith);
    publishes = subst (Publishes v.written) e v.publishes;
  }
  Step-Inv {s} (wrote {conn} {conn'} {entry} e one) v = record {
    written = v.written ++ entry ∷ [];
    split =
        v.split
        ∙ (ap (λ at. all_of v.written at s.events s.phase) e
            ∙ sym (append_assoc v.written (entry ∷ []) (s.events ++ pending s.phase)));
    closes = v.closes;
    joins = λ r. sym (ap is_over e) ∙ v.joins r;
    ends = λ o. absurd (ground arith);
    publishes = Carries-more v.written entry (subst (Publishes v.written) e v.publishes) one;
  }
  Step-Inv {s} (see_closed {conn} e empty shut) v = record {
    written = v.written;
    split = v.split ∙ ap (λ at. all_of v.written at s.events s.phase) e;
    closes = v.closes;
    joins = λ r. refl;
    ends = λ o. (empty, shut);
    publishes = (conn, refl, subst (Publishes v.written) e v.publishes);
  }
  Step-Inv {s} (joined {conn} e f) v = record {
    written = v.written;
    split = v.split ∙ ap (all_of v.written s.publishing s.events) e;
    closes = v.closes ∙ ap is_shut e;
    joins = λ r. ap is_over f;
    ends = v.ends;
    publishes = v.publishes;
  }

  pub Reach-Inv : {s : Producing Conn} → Reach d marshal p msg s → Inv s
  unfolding first_producing
  Reach-Inv (begin size) = record {
    written = [];
    split = refl;
    closes = refl;
    joins = λ r. absurd (ground arith);
    ends = λ o. absurd (ground arith);
    publishes = refl;
  }
  Reach-Inv (later r st) = Step-Inv st (Reach-Inv r)

  Reach-sized :
      {s : Producing Conn} → Reach d marshal p msg s → message_of_size p.message_size ≡ some msg
  Reach-sized (begin size) = size
  Reach-sized (later r st) = Reach-sized r

  over_finished : (at : Publishing Conn) → is_over at ≡ true → (conn : Conn) × (at ≡ finished conn)
  over_finished (finished conn) o = (conn, refl)
  over_finished connecting o = absurd (ground arith)
  over_finished (ranging conn) o = absurd (ground arith)
  over_finished (writing conn entry) o = absurd (ground arith)

  pub returned_published :
      {s : Producing Conn}
      → Reach d marshal p msg s
      → s.phase ≡ returned
      → (conn : Conn) × (produce p.message_size s.ticks ≡ some (map (entry_at msg) s.ticks))
        × (s.publishing ≡ finished conn)
        × (publish d marshal p.publisher (map (entry_at msg) s.ticks) ≡ some conn)
  unfolding produce publish
  returned_published {s} r e =
      let v = Reach-Inv r in
      let (conn, at) = over_finished s.publishing (v.joins e) in
      let (last, shut, carried) = subst (Publishes v.written) at v.publishes in
      let (first, connected, wrote_all) = carried in
      let (none_left, closed) = v.ends (v.joins e) in
      let all : map (entry_at msg) s.ticks ≡ v.written =
        v.split
        ∙ (ap (λ at'. all_of v.written at' s.events s.phase) at
            ∙ (ap (λ events. all_of v.written (finished conn) events s.phase) none_left
                ∙ (ap (all_of v.written (finished conn) []) e ∙ append-nil v.written))) in
      (conn, rw (Reach-sized r) refl, at, rw (all, connected, wrote_all, shut) refl)

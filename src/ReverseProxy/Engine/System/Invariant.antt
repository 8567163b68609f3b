-- ===== src/ReverseProxy/Engine/System/Invariant.antt =====
-- The table holds pairs in every state that the engine reaches, if no descriptor is taken that
-- `closeConn` or a finalizer has closed before the removal.
use native.Mathlib.Decide.{ℕ_discrete}
use performance_handbook.Base.{
  ℕ, ◌≡◌, ◌≢◌, ◌⊎◌, inl, inr, refl, ap, true, false, Option, none, some, arith,
}
use performance_handbook.ReverseProxy.Engine.{ProxyConn}
use performance_handbook.ReverseProxy.Engine.Pairs.{
  IsPaired, with_pair-IsPaired, without_pair-IsPaired,
}
use performance_handbook.ReverseProxy.Engine.System.{
  Looping, waiting, found, closing, System, first_system, put_both, set_both, set, IsClosing, Step,
  take_fds, finalize, enter, look_up, keep, close_fds, remove, Reach, begin, later,
}

-- The pair that the loop has found, and the one that `closeConn` is closing.
abbrev current : Looping → Option ProxyConn
current waiting = none
current (found pc) = some pc
current (closing pc) = some pc

abbrev closing_pair : Looping → Option ProxyConn
closing_pair waiting = none
closing_pair (found pc) = none
closing_pair (closing pc) = some pc

-- The current pair is in the table. The descriptors of the table are open, but for those of a pair
-- that is being closed, and those that a finalizer has closed.
record Inv (s : System) : Type 0 where
  paired : IsPaired s.conns
  hand_paired : IsPaired s.in_hand
  apart : (fd : ℕ) (pc q : ProxyConn) → s.conns fd ≡ some pc → s.in_hand fd ≡ some q → ⊥
  hand_open :
      (fd : ℕ) (q : ProxyConn)
      → s.in_hand fd ≡ some q
      → (s.open_fds fd ≡ true) ⊎ (s.finalized fd ≡ true)
  table_open :
      (fd : ℕ) (pc : ProxyConn)
      → s.conns fd ≡ some pc
      → ((s.open_fds fd ≡ true) ⊎ (s.finalized fd ≡ true)) ⊎ (closing_pair s.looping ≡ some pc)
  at_work : (pc : ProxyConn) → current s.looping ≡ some pc → s.conns pc.client_fd ≡ some pc

none_if : {A : Type 0} (o : Option A) → ((x : A) → o ≡ some x → ⊥) → o ≡ none
none_if none h = refl
none_if (some x) h = absurd (h x refl)

closing_is :
    (looping : Looping) (pc : ProxyConn) → closing_pair looping ≡ some pc → looping ≡ closing pc
closing_is waiting pc e = absurd (ground arith)
closing_is (found q) pc e = absurd (ground arith)
closing_is (closing q) pc e = ground arith

not_closing : (looping : Looping) → ¬ IsClosing looping → closing_pair looping ≡ none
not_closing waiting h = refl
not_closing (found pc) h = refl
not_closing (closing pc) h = absurd (h (pc, refl))

-- A descriptor that is not open, and that no finalizer has closed, is in neither table, unless a
-- pair is being closed.
unused :
    (s : System) (fd : ℕ)
    → Inv s
    → s.open_fds fd ≡ false
    → s.finalized fd ≡ false
    → ¬ IsClosing s.looping
    → (s.conns fd ≡ none) × (s.in_hand fd ≡ none)
unused s fd v shut kept idle = (
  none_if (s.conns fd) (λ pc at. elim (v.table_open fd pc at) [
    | inl is_held ↦ ground arith
    | inr is_closing ↦ let e = not_closing s.looping idle in ground arith
  ]),
  none_if (s.in_hand fd) (λ q at. let is_held = v.hand_open fd q at in ground arith),
)

take_fds-Inv :
    (s : System) (pc : ProxyConn)
    → pc.client_fd ≢ pc.backend_fd
    → s.open_fds pc.client_fd ≡ false
    → s.open_fds pc.backend_fd ≡ false
    → ¬ IsClosing s.looping
    → s.finalized pc.client_fd ≡ false
    → s.finalized pc.backend_fd ≡ false
    → Inv s
    → Inv (record s {
      open_fds = set_both s.open_fds pc true;
      finalized = set_both s.finalized pc false;
      in_hand = put_both s.in_hand pc (some pc);
    })
take_fds-Inv s pc apart c b idle kept_c kept_b v =
    let (client_free, client_not) = unused s pc.client_fd v c kept_c idle in
    let (backend_free, backend_not) = unused s pc.backend_fd v b kept_b idle in
    record {
      paired = v.paired;
      hand_paired = with_pair-IsPaired s.in_hand pc apart client_not backend_not v.hand_paired;
      apart = λ fd p q at held. let other = v.apart fd p q at in ground arith;
      hand_open = λ fd q held. let before = v.hand_open fd q in ground arith;
      table_open = λ fd p at. elim (v.table_open fd p at) [
        | inl is_held ↦ inl (ground arith)
        | inr is_closing ↦ inr is_closing
      ];
      at_work = v.at_work;
    }

finalize-Inv :
    (s : System) (fd : ℕ)
    → Inv s
    → Inv (record s { open_fds = set s.open_fds fd false; finalized = set s.finalized fd true })
finalize-Inv s fd v = record {
  paired = v.paired;
  hand_paired = v.hand_paired;
  apart = v.apart;
  hand_open = λ other q held. let before = v.hand_open other q held in ground arith;
  table_open = λ other p at. elim (v.table_open other p at) [
    | inl is_held ↦ inl (ground arith)
    | inr is_closing ↦ inr is_closing
  ];
  at_work = v.at_work;
}

enter-Inv :
    (s : System) (pc : ProxyConn)
    → s.in_hand pc.client_fd ≡ some pc
    → Inv s
    → Inv (record s { in_hand = put_both s.in_hand pc none; conns = put_both s.conns pc (some pc) })
enter-Inv s pc held v =
    let pair = v.hand_paired pc.client_fd pc held in
    let client_free =
      none_if (s.conns pc.client_fd) (λ p at. v.apart pc.client_fd p pc at pair.at_client) in
    let backend_free =
      none_if (s.conns pc.backend_fd) (λ p at. v.apart pc.backend_fd p pc at pair.at_backend) in
    let client_open = v.hand_open pc.client_fd pc pair.at_client in
    let backend_open = v.hand_open pc.backend_fd pc pair.at_backend in
    record {
      paired = with_pair-IsPaired s.conns pc pair.apart client_free backend_free v.paired;
      hand_paired = without_pair-IsPaired s.in_hand pc pc.client_fd held v.hand_paired;
      apart = λ fd p q at held'. let other = v.apart fd p q in ground arith;
      hand_open = λ fd q held'. let before = v.hand_open fd q in ground arith;
      table_open = λ fd p at. elim (ℕ_discrete pc.backend_fd fd) [
        | yes e ↦ inl (ground arith)
        | no other_b ↦ elim (ℕ_discrete pc.client_fd fd) [
          | yes e ↦ inl (ground arith)
          | no other_c ↦ v.table_open fd p (ground arith)
        ]
      ];
      at_work = λ p e. let before = v.at_work p e in ground arith;
    }

close_fds-Inv :
    (s : System) (pc : ProxyConn)
    → s.looping ≡ found pc
    → Inv s
    → Inv (record s { open_fds = set_both s.open_fds pc false; looping = closing pc })
close_fds-Inv s pc w v =
    let at = v.at_work pc (ap current w) in
    let pair = v.paired pc.client_fd pc at in
    record {
      paired = v.paired;
      hand_paired = v.hand_paired;
      apart = v.apart;
      hand_open = λ fd q held.
          let other = v.apart fd pc q in
          let before = v.hand_open fd q held in
          let at_client = pair.at_client in let at_backend = pair.at_backend in ground arith;
      table_open = λ fd p here.
          let before = v.table_open fd p here in
          let was = ap closing_pair w in
          elim (ℕ_discrete pc.backend_fd fd) [
            | yes e ↦ inr (let at_backend = pair.at_backend in ground arith)
            | no other_b ↦ elim (ℕ_discrete pc.client_fd fd) [
              | yes e ↦ inr (ground arith)
              | no other_c ↦ inl (ground arith)
            ]
          ];
      at_work = λ p e. ground arith;
    }

remove-Inv :
    (s : System) (pc : ProxyConn)
    → s.looping ≡ closing pc
    → Inv s
    → Inv (record s {
      conns = put_both s.conns pc none;
      finalized = set_both s.finalized pc false;
      looping = waiting;
    })
remove-Inv s pc w v =
    let at = v.at_work pc (ap current w) in
    record {
      paired = without_pair-IsPaired s.conns pc pc.client_fd at v.paired;
      hand_paired = v.hand_paired;
      apart = λ fd p q here held. let other = v.apart fd p q in ground arith;
      hand_open = λ fd q held.
          let pair = v.paired pc.client_fd pc at in
          let other_c = v.apart pc.client_fd pc q pair.at_client in
          let other_b = v.apart pc.backend_fd pc q pair.at_backend in
          let before = v.hand_open fd q held in ground arith;
      table_open = λ fd p here.
          let (kept, other_c, other_b) : (s.conns fd ≡ some p)
              × (fd ≢ pc.client_fd)
              × (fd ≢ pc.backend_fd) =
            (ground arith, λ z. ground arith, λ z. ground arith) in
          let mine = (v.paired fd p kept).mine in
          let was = ap closing_pair w in
          elim (v.table_open fd p kept) [
            | inl is_held ↦ inl (ground arith)
            | inr is_closing ↦ absurd (ground arith)
          ];
      at_work = λ p e. ground arith;
    }

Step-Inv : {s t : System} → Step false s t → Inv s → Inv t
Step-Inv {s} (take_fds pc apart c b (inl never)) v = absurd (ground arith)
Step-Inv {s} (take_fds pc apart c b (inr (idle, kept_c, kept_b))) v =
    take_fds-Inv s pc apart c b idle kept_c kept_b v
Step-Inv {s} (finalize fd is_open) v = finalize-Inv s fd v
Step-Inv {s} (enter pc held) v = enter-Inv s pc held v
Step-Inv {s} (look_up fd pc w at) v = record {
  paired = v.paired;
  hand_paired = v.hand_paired;
  apart = v.apart;
  hand_open = v.hand_open;
  table_open = λ fd' p here. let before = v.table_open fd' p here in ground arith;
  at_work = λ p e. let pair = v.paired fd pc at in let at_client = pair.at_client in ground arith;
}
Step-Inv {s} (keep w) v = record {
  paired = v.paired;
  hand_paired = v.hand_paired;
  apart = v.apart;
  hand_open = v.hand_open;
  table_open = λ fd p here. let before = v.table_open fd p here in ground arith;
  at_work = λ p e. absurd (ground arith);
}
Step-Inv {s} (close_fds {pc} w) v = close_fds-Inv s pc w v
Step-Inv {s} (remove {pc} w) v = remove-Inv s pc w v

Reach-Inv : {s : System} → Reach false s → Inv s
unfolding first_system
Reach-Inv begin = record {
  paired = λ fd pc at. absurd (ground arith);
  hand_paired = λ fd pc at. absurd (ground arith);
  apart = λ fd pc q at held. ground arith;
  hand_open = λ fd q held. absurd (ground arith);
  table_open = λ fd pc at. absurd (ground arith);
  at_work = λ pc e. absurd (ground arith);
}
Reach-Inv (later r st) = Step-Inv st (Reach-Inv r)

-- In every state that the engine reaches, whatever calls of `Serve` are under way, however they
-- interleave with the events, and whenever finalizers close descriptors, if no number is taken
-- while `closeConn` is between its calls of `Close` and the removal, nor when a finalizer has closed
-- it and it has not been removed since: the table holds pairs, and a descriptor that is in it is
-- open, or a finalizer has closed it, or its pair is being closed.
pub table-IsPaired :
    {s : System}
    → Reach false s
    → IsPaired s.conns
      × ((fd : ℕ) (pc : ProxyConn)
          → s.conns fd ≡ some pc
          → ((s.open_fds fd ≡ true) ⊎ (s.finalized fd ≡ true)) ⊎ (s.looping ≡ closing pc))
table-IsPaired {s} r = (
  (Reach-Inv r).paired,
  λ fd pc at. elim ((Reach-Inv r).table_open fd pc at) [
    | inl is_held ↦ inl is_held
    | inr is_closing ↦ inr (closing_is s.looping pc is_closing)
  ],
)

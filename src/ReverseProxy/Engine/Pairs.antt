-- ===== src/ReverseProxy/Engine/Pairs.antt =====
-- The table of connections holds pairs: an entry at each end of every proxied connection.
use native.Mathlib.Decide.{ℕ_discrete}
use performance_handbook.Base.{
  ℕ, ◌≡◌, ◌≢◌, ◌⊎◌, inl, inr, sym, subst, Bool, true, false, [], ◌∷◌, Option, none, some, arith,
  Option-cases,
}
use performance_handbook.ReverseProxy.Engine.{
  ProxyConn, EpollEngine, put, ReadResult, read_error, bytes, WriteResult, write_error, took,
  close_conn, handle_event, register,
}

-- The entry at `fd` names `fd`, its two descriptors differ, and it stands at both of them.
pub record IsPair (conns : ℕ → Option ProxyConn) (fd : ℕ) (pc : ProxyConn) : Type 0 where
  pub mine : (fd ≡ pc.client_fd) ⊎ (fd ≡ pc.backend_fd)
  pub apart : pc.client_fd ≢ pc.backend_fd
  pub at_client : conns pc.client_fd ≡ some pc
  pub at_backend : conns pc.backend_fd ≡ some pc

abbrev pub IsPaired : (ℕ → Option ProxyConn) → Type 0
IsPaired conns = (fd : ℕ) (pc : ProxyConn) → conns fd ≡ some pc → IsPair conns fd pc

-- Two entries that share a descriptor are one.
pairs_apart :
    (conns : ℕ → Option ProxyConn) (fd other : ℕ) (pc q : ProxyConn)
    → IsPair conns fd pc
    → IsPair conns other q
    → other ≢ pc.client_fd
    → other ≢ pc.backend_fd
    → (q.client_fd ≢ pc.client_fd)
      × (q.client_fd ≢ pc.backend_fd)
      × (q.backend_fd ≢ pc.client_fd)
      × (q.backend_fd ≢ pc.backend_fd)
pairs_apart conns fd other pc q here there c b =
    (λ e. ground arith, λ e. ground arith, λ e. ground arith, λ e. ground arith)

abbrev pub without_pair : (ℕ → Option ProxyConn) → ProxyConn → ℕ → Option ProxyConn
without_pair conns pc = put (put conns pc.client_fd none) pc.backend_fd none

pub without_pair-IsPaired :
    (conns : ℕ → Option ProxyConn) (pc : ProxyConn) (fd : ℕ)
    → conns fd ≡ some pc
    → IsPaired conns
    → IsPaired (without_pair conns pc)
without_pair-IsPaired conns pc fd at h other q found =
    let (c, b, kept) : (other ≢ pc.client_fd) × (other ≢ pc.backend_fd) × (conns other ≡ some q) =
      (λ z. ground arith, λ z. ground arith, ground arith) in
    let there = h other q kept in
    let (cc', cb, bc, bb) = pairs_apart conns fd other pc q (h fd pc at) there c b in
    record {
      mine = there.mine;
      apart = there.apart;
      at_client = ground arith;
      at_backend = ground arith;
    }

close_conn-IsPaired :
    (e : EpollEngine) (pc : ProxyConn) (fd : ℕ)
    → e.conns fd ≡ some pc
    → IsPaired e.conns
    → IsPaired (close_conn e pc).conns
unfolding close_conn
close_conn-IsPaired e pc fd at h = without_pair-IsPaired e.conns pc fd at h

abbrev pub with_pair : (ℕ → Option ProxyConn) → ProxyConn → ℕ → Option ProxyConn
with_pair conns pc = put (put conns pc.client_fd (some pc)) pc.backend_fd (some pc)

new_entry :
    (conns : ℕ → Option ProxyConn) (pc : ProxyConn) (other : ℕ)
    → pc.client_fd ≢ pc.backend_fd
    → (other ≡ pc.client_fd) ⊎ (other ≡ pc.backend_fd)
    → IsPair (with_pair conns pc) other pc
new_entry conns pc other apart mine = record {
  mine = mine;
  apart = apart;
  at_client = ground arith;
  at_backend = ground arith;
}

old_entry :
    (conns : ℕ → Option ProxyConn) (pc q : ProxyConn) (other : ℕ)
    → conns pc.client_fd ≡ none
    → conns pc.backend_fd ≡ none
    → IsPair conns other q
    → IsPair (with_pair conns pc) other q
old_entry conns pc q other nc nb there = record {
  mine = there.mine;
  apart = there.apart;
  at_client = ground arith;
  at_backend = ground arith;
}

pub with_pair-IsPaired :
    (conns : ℕ → Option ProxyConn) (pc : ProxyConn)
    → pc.client_fd ≢ pc.backend_fd
    → conns pc.client_fd ≡ none
    → conns pc.backend_fd ≡ none
    → IsPaired conns
    → IsPaired (with_pair conns pc)
with_pair-IsPaired conns pc apart nc nb h other q found = elim (ℕ_discrete pc.backend_fd other) [
  | yes eb ↦
      let same : pc ≡ q = ground arith in
      subst (IsPair (with_pair conns pc) other) same (new_entry conns pc other apart (inr (sym eb)))
  | no other_b ↦ elim (ℕ_discrete pc.client_fd other) [
    | yes ec ↦
        let same : pc ≡ q = ground arith in
        subst (IsPair (with_pair conns pc) other) same
          (new_entry conns pc other apart (inl (sym ec)))
    | no other_c ↦ old_entry conns pc q other nc nb (h other q (ground arith))
  ]
]

-- The table stays one of pairs when `Serve` registers two descriptors that are not in it, whether or
-- not the calls of `EpollCtl` succeed.
pub register-IsPaired :
    (e : EpollEngine) (client backend : ℕ) (adds_client adds_backend : Bool)
    → client ≢ backend
    → e.conns client ≡ none
    → e.conns backend ≡ none
    → IsPaired e.conns
    → IsPaired (register e client backend adds_client adds_backend).0.conns
unfolding register
register-IsPaired e client backend true true =
    with_pair-IsPaired e.conns (record { client_fd = client; backend_fd = backend })
register-IsPaired e client backend true false =
    with_pair-IsPaired e.conns (record { client_fd = client; backend_fd = backend })
register-IsPaired e client backend false y =
    with_pair-IsPaired e.conns (record { client_fd = client; backend_fd = backend })

unhandled :
    (e : EpollEngine) (fd : ℕ) (readable : Bool) (read : ReadResult) (write : WriteResult)
    → e.conns fd ≡ none
    → IsPaired e.conns
    → IsPaired (handle_event e fd readable read write).conns
unfolding handle_event
unhandled e fd readable read write missing h = rw (missing, handle_event) h

handled :
    (e : EpollEngine) (fd : ℕ) (pc : ProxyConn) (readable : Bool) (read : ReadResult)
    (write : WriteResult)
    → e.conns fd ≡ some pc
    → IsPaired e.conns
    → IsPaired (handle_event e fd readable read write).conns
unfolding handle_event
handled e fd pc false read write at h = rw (at, handle_event) h
handled e fd pc true read_error write at h =
    rw (at, handle_event) (close_conn-IsPaired e pc fd at h)
handled e fd pc true (bytes []) write at h =
    rw (at, handle_event) (close_conn-IsPaired e pc fd at h)
handled e fd pc true (bytes (b ∷ bs)) write_error at h =
    rw (at, handle_event) (close_conn-IsPaired e pc fd at h)
handled e fd pc true (bytes (b ∷ bs)) (took n) at h = rw (at, handle_event) h

-- Whatever event arrives, and whatever the read and the write answer, `handleEvent` keeps the table
-- one of pairs: a connection is never left with an entry at one end only.
pub handle_event-IsPaired :
    (e : EpollEngine) (fd : ℕ) (readable : Bool) (read : ReadResult) (write : WriteResult)
    → IsPaired e.conns
    → IsPaired (handle_event e fd readable read write).conns
handle_event-IsPaired e fd readable read write h = elim (Option-cases (e.conns fd)) [
  | inl missing ↦ unhandled e fd readable read write missing h
  | inr (pc, at) ↦ handled e fd pc readable read write at h
]

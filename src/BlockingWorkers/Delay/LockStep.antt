-- ===== src/BlockingWorkers/Delay/LockStep.antt =====
-- One byte goes to and fro.
use performance_handbook.Base.{
  ℕ, ◌+◌, ◌≤◌, ◌≡◌, ◌≢◌, ◌⊎◌, inl, inr, refl, ap, Bool, true, false, Bool-cases, arith,
}
use performance_handbook.BlockingWorkers.Delay.{
  Netpoll, writing, reading, returned, Answering, waiting, sleeping, answering, left, Link, Step,
  write, write_fails, read, read_fails, server_reads, server_read_fails, wakes, server_writes,
  server_write_fails, breaks, Reach, begin, later,
}

-- The byte that the server holds, before its sleep and behind it
abbrev pub before_sleep : Answering → ℕ
before_sleep sleeping = 1
before_sleep _ = 0

abbrev pub after_sleep : Answering → ℕ
after_sleep answering = 1
after_sleep _ = 0

abbrev pub under_way : Link → ℕ
under_way s = s.to_server + before_sleep s.server + after_sleep s.server + s.to_worker

-- Whether the worker has a byte to get back
abbrev expects : Netpoll → ℕ
expects writing = 0
expects _ = 1

expects-le : (w : Netpoll) → expects w ≤ 1
expects-le w = ground arith

record Counts (s : Link) : Type 0 where
  few : under_way s ≤ expects s.worker
  slept : s.sleeps + before_sleep s.server + s.to_server ≤ s.rounds + expects s.worker
  waited : s.rounds + after_sleep s.server + s.to_worker ≤ s.sleeps

Step-Counts : {s t : Link} → Step s t → Counts s → Counts t
Step-Counts (write e) v = ground arith
Step-Counts (write_fails e gone) v = ground arith
Step-Counts (read e f) v = ground arith
Step-Counts (read_fails e gone) v = ground arith
Step-Counts (server_reads e f) v = ground arith
Step-Counts (server_read_fails e gone) v = ground arith
Step-Counts (wakes e) v = ground arith
Step-Counts (server_writes e) v = ground arith
Step-Counts (server_write_fails e gone) v = ground arith
Step-Counts (breaks e) v = ground arith

-- While the connection holds, both run, and the byte is somewhere.
record Healthy (s : Link) : Type 0 where
  one : under_way s ≡ expects s.worker
  works : s.worker ≢ returned
  serves : s.server ≢ left

Step-Healthy :
    {s t : Link} → Step s t → t.broken ≡ false → (s.broken ≡ false → Healthy s) → Healthy t
Step-Healthy (write e) sound v =
    let w = v sound in record { one = ground arith; works = ground arith; serves = ground arith }
Step-Healthy (write_fails e gone) sound v = elim gone [
  | inl broken ↦ cc
  | inr closed ↦ absurd ((v sound).serves closed)
]
Step-Healthy (read e f) sound v =
    let w = v sound in record { one = ground arith; works = ground arith; serves = ground arith }
Step-Healthy (read_fails e gone) sound v = elim gone [
  | inl broken ↦ cc
  | inr closed ↦ absurd ((v sound).serves closed)
]
Step-Healthy (server_reads e f) sound v =
    let w = v sound in record { one = ground arith; works = ground arith; serves = ground arith }
Step-Healthy (server_read_fails e gone) sound v = elim gone [
  | inl broken ↦ cc
  | inr closed ↦ absurd ((v sound).works closed)
]
Step-Healthy (wakes e) sound v =
    let w = v sound in record { one = ground arith; works = ground arith; serves = ground arith }
Step-Healthy (server_writes e) sound v =
    let w = v sound in record { one = ground arith; works = ground arith; serves = ground arith }
Step-Healthy (server_write_fails e gone) sound v = elim gone [
  | inl broken ↦ cc
  | inr closed ↦ absurd ((v sound).works closed)
]
Step-Healthy (breaks e) sound v = cc

Reach-Counts : {s : Link} → Reach s → Counts s
Reach-Counts begin = omega arith
Reach-Counts (later r st) = Step-Counts st (Reach-Counts r)

Reach-Healthy : {s : Link} → Reach s → s.broken ≡ false → Healthy s
Reach-Healthy begin sound = record { one = omega arith; works = λ e. cc; serves = λ e. cc }
Reach-Healthy (later r st) sound = Step-Healthy st sound (Reach-Healthy r)

-- Whether a step is a call that succeeds; the others are calls that fail, and the failure of the
-- connection itself.
pub succeeds : {s t : Link} → Step s t → Bool
succeeds (write e) = true
succeeds (write_fails e gone) = false
succeeds (read e f) = true
succeeds (read_fails e gone) = false
succeeds (server_reads e f) = true
succeeds (server_read_fails e gone) = false
succeeds (wakes e) = true
succeeds (server_writes e) = true
succeeds (server_write_fails e gone) = false
succeeds (breaks e) = false

abbrev pub MovesOn : Link → Type 0
MovesOn s = (t : Link) × (st : Step s t) × (succeeds st ≡ true)

moves_sound :
    (s : Link) (w : Netpoll) (a : Answering) → s.worker ≡ w → s.server ≡ a → Healthy s → MovesOn s
unfolding succeeds
moves_sound s writing a e f v = (_, write e, refl)
moves_sound s w sleeping e f v = (_, wakes f, refl)
moves_sound s w answering e f v = (_, server_writes f, refl)
moves_sound s reading waiting e f v =
    let where_it_is : (s.to_server ≡ 1) ⊎ (s.to_worker ≡ 1) =
      omega (arith, v.one, ap expects e, ap before_sleep f, ap after_sleep f) in
    elim where_it_is [
      | inl sent ↦ (_, server_reads f sent, refl)
      | inr back ↦ (_, read e back, refl)
    ]
moves_sound s returned a e f v = absurd (v.works e)
moves_sound s w left e f v = absurd (v.serves f)

-- Behind a failure
moves_broken :
    (s : Link) (w : Netpoll) (a : Answering)
    → s.worker ≡ w
    → s.server ≡ a
    → s.broken ≡ true
    → ((t : Link) × Step s t) ⊎ ((s.worker ≡ returned) × (s.server ≡ left))
moves_broken s writing a e f broken = inl (_, write e)
moves_broken s reading a e f broken = inl (_, read_fails e (inl broken))
moves_broken s returned waiting e f broken = inl (_, server_read_fails f (inl broken))
moves_broken s returned sleeping e f broken = inl (_, wakes f)
moves_broken s returned answering e f broken = inl (_, server_writes f)
moves_broken s returned left e f broken = inr (e, f)

-- In every state that a worker and the goroutine that serves it reach: at most one byte is on its
-- way or with the server; each round of the worker has had a sleep of the server, and there is at
-- most one sleep more. While the connection has not failed, a call of one of the two can succeed;
-- and once it has failed, one of the two can make a step, or both have returned.
pub lock_step :
    {s : Link}
    → Reach s
    → (under_way s ≤ 1)
      × (s.rounds ≤ s.sleeps)
      × (s.sleeps ≤ s.rounds + 1)
      × (((s.broken ≡ false) × MovesOn s)
          ⊎ ((s.broken ≡ true)
              × (((t : Link) × Step s t) ⊎ ((s.worker ≡ returned) × (s.server ≡ left)))))
lock_step {s} r =
    let counts = Reach-Counts r in
    let at_most : expects s.worker ≤ 1 = expects-le s.worker in
    (
      omega (arith, counts.few, at_most),
      omega (arith, counts.waited),
      omega (arith, counts.slept, at_most),
      elim (Bool-cases s.broken) [
        | inl broken ↦ inr (broken, moves_broken s s.worker s.server refl refl broken)
        | inr sound ↦ inl (sound, moves_sound s s.worker s.server refl refl (Reach-Healthy r sound))
      ],
    )

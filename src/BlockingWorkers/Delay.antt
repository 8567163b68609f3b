-- ===== src/BlockingWorkers/Delay.antt =====
-- delay-server.go, and `netpollWorker` of worker.go: a worker and the goroutine that serves its
-- connection, as a transition system.
pub mod LockStep
mod Tests
use performance_handbook.Base.{ℕ, zero, suc, ◌+◌, ◌≡◌, ◌⊎◌, Bool, true, false}

-- The worker: at `Write`, at `Read`, or returned; the deferred `Close` has run then.
pub data Netpoll : Type 0 where
  writing : Netpoll
  reading : Netpoll
  returned : Netpoll

-- The goroutine of the server: at `Read`, in `Sleep`, at `Write`, or returned, with its `Close`
pub data Answering : Type 0 where
  waiting : Answering
  sleeping : Answering
  answering : Answering
  left : Answering

-- `to_server` and `to_worker` are the bytes on the connection in either direction. `rounds` counts
-- the rounds of the worker's loop, and `sleeps` the sleeps that have ended. `broken`: the connection
-- has failed.
pub record Link : Type 0 where
  pub worker : Netpoll
  pub server : Answering
  pub to_server : ℕ
  pub to_worker : ℕ
  pub rounds : ℕ
  pub sleeps : ℕ
  pub broken : Bool

-- The worker has dialled, and the server has accepted.
abbrev pub dialled : Link
dialled = record {
  worker = writing;
  server = waiting;
  to_server = 0;
  to_worker = 0;
  rounds = 0;
  sleeps = 0;
  broken = false;
}

pub data Step (s : Link) : Link → Type 0 where
  write : s.worker ≡ writing → Step s (record s { worker = reading; to_server = s.to_server + 1 })
  write_fails :
      s.worker ≡ writing
      → (s.broken ≡ true) ⊎ (s.server ≡ left)
      → Step s (record s { worker = returned })
  read :
      {bytes : ℕ}
      → s.worker ≡ reading
      → s.to_worker ≡ suc bytes
      → Step s (record s { worker = writing; to_worker = bytes; rounds = s.rounds + 1 })
  read_fails :
      s.worker ≡ reading
      → (s.broken ≡ true) ⊎ (s.server ≡ left)
      → Step s (record s { worker = returned })
  server_reads :
      {bytes : ℕ}
      → s.server ≡ waiting
      → s.to_server ≡ suc bytes
      → Step s (record s { server = sleeping; to_server = bytes })
  server_read_fails :
      s.server ≡ waiting
      → (s.broken ≡ true) ⊎ (s.worker ≡ returned)
      → Step s (record s { server = left })
  wakes : s.server ≡ sleeping → Step s (record s { server = answering; sleeps = s.sleeps + 1 })
  server_writes :
      s.server ≡ answering → Step s (record s { server = waiting; to_worker = s.to_worker + 1 })
  server_write_fails :
      s.server ≡ answering
      → (s.broken ≡ true) ⊎ (s.worker ≡ returned)
      → Step s (record s { server = left })
  breaks : s.broken ≡ false → Step s (record s { broken = true })

pub data Reach : Link → Type 0 where
  begin : Reach dialled
  later : {s t : Link} → Reach s → Step s t → Reach t

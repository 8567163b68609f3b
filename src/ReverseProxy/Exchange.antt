-- ===== src/ReverseProxy/Exchange.antt =====
-- cmd/client/main.go, a session of `GoroutineEngine.Serve` (pkg/engine/engine.go) and
-- cmd/echo/main.go, joined by two TCP connections, as one transition system.
pub mod Lines
pub mod Flow
pub mod Invariant
pub mod Kept
pub mod Answers
pub mod Cost
pub mod Settling
pub mod Tests
use performance_handbook.Base.{
  ℕ, zero, ◌≡◌, ◌<◌, ◌⊎◌, Bool, true, false, List, [], ◌∷◌, ◌++◌, Option, none, some, Bytes, codes,
  length, if◌then◌else◌, ◌==◌,
}

abbrev pub newline : ℕ
newline = 10

-- The requests of the client
abbrev pub requests : List Bytes
requests = codes "Hello 1\n" ∷ codes "Hello 2\n" ∷ codes "Hello 3\n" ∷ []

-- Up to the first newline, and behind it
unfoldable pub split_line : Bytes → Option (Bytes × Bytes)
split_line [] = none
split_line (b ∷ bs) =
    if b == newline
    then some (b ∷ [], bs)
    else elim (split_line bs) [ none ↦ none | some (line, after) ↦ some (b ∷ line, after) ]

-- The client: before the `Write` of the first of the requests that are left; in `ReadString`, with
-- the bytes that its reader holds; the same loop after an error of the connection, which is final;
-- and behind the deferred `Close`.
pub data Client : Type 0 where
  sending : List Bytes → Client
  awaiting : (request got : Bytes) → List Bytes → Client
  failing : List Bytes → Client
  closed : Client

-- A call of `io.Copy`: with the bytes that it has read and not yet written, or returned.
pub data Copy : Type 0 where
  copying : Bytes → Copy
  ended : Copy

-- `upload` and `download` are the two copies of `Serve`; when `download` has returned, the deferred
-- calls have closed the connections. `echo` is that of `handleConnection`. The streams hold what was
-- written to a connection and not yet read. `broken`: some connection on the way has failed.
pub record Exchange : Type 0 where
  pub client : Client
  pub printed : List Bytes
  pub to_proxy : Bytes
  pub upload : Copy
  pub to_backend : Bytes
  pub echo : Copy
  pub from_backend : Bytes
  pub download : Copy
  pub to_client : Bytes
  pub broken : Bool

-- The client is connected, and its session has got a backend connection, which is a new one.
abbrev pub connected : List Bytes → Exchange
connected reqs = record {
  client = sending reqs;
  printed = [];
  to_proxy = [];
  upload = copying [];
  to_backend = [];
  echo = copying [];
  from_backend = [];
  download = copying [];
  to_client = [];
  broken = false;
}

-- `ReadString` and what follows, for what the reader has split: it goes on reading, or the line is
-- printed, and the reader is dropped with what is behind the line.
abbrev pub on_read : Exchange → Bytes → Bytes → List Bytes → Option (Bytes × Bytes) → Exchange
on_read s request got reqs none = record s { client = awaiting request got reqs }
on_read s request got reqs (some (line, after)) = record s {
  client = sending reqs;
  printed = s.printed ++ line ∷ [];
}

-- The calls on a connection can fail.
abbrev pub Cut : Exchange → Type 0
Cut s = (s.broken ≡ true) ⊎ (s.download ≡ ended)

pub data Step (s : Exchange) : Exchange → Type 0 where
  write :
      {request : Bytes} {reqs : List Bytes}
      → s.client ≡ sending (request ∷ reqs)
      → Step s (record s { client = awaiting request [] reqs; to_proxy = s.to_proxy ++ request })
  write_fails :
      {request : Bytes} {reqs : List Bytes}
      → s.client ≡ sending (request ∷ reqs)
      → Cut s
      → Step s (record s { client = failing reqs })
  read :
      {request got : Bytes} {reqs : List Bytes} (chunk rest : Bytes)
      → s.client ≡ awaiting request got reqs
      → s.to_client ≡ chunk ++ rest
      → 0 < length chunk
      → Step s (
          on_read
            (record s { to_client = rest })
            request
            (got ++ chunk)
            reqs
            (split_line (got ++ chunk)))
  read_fails :
      {request got : Bytes} {reqs : List Bytes}
      → s.client ≡ awaiting request got reqs
      → Cut s
      → Step s (record s { client = failing reqs })
  fail_again :
      {request : Bytes} {reqs : List Bytes}
      → s.client ≡ failing (request ∷ reqs)
      → Step s (record s { client = failing reqs })
  close : s.client ≡ sending [] → Step s (record s { client = closed })
  close_failed : s.client ≡ failing [] → Step s (record s { client = closed })
  upload_reads :
      (chunk rest : Bytes)
      → s.upload ≡ copying []
      → s.to_proxy ≡ chunk ++ rest
      → 0 < length chunk
      → Step s (record s { upload = copying chunk; to_proxy = rest })
  upload_writes :
      {held : Bytes}
      → s.upload ≡ copying held
      → 0 < length held
      → Step s (record s { upload = copying []; to_backend = s.to_backend ++ held })
  -- The end of the client's stream; nothing follows the copy.
  upload_eof :
      s.upload ≡ copying []
      → s.to_proxy ≡ []
      → s.client ≡ closed
      → Step s (record s { upload = ended })
  upload_fails :
      {held : Bytes} → s.upload ≡ copying held → Cut s → Step s (record s { upload = ended })
  echo_reads :
      (chunk rest : Bytes)
      → s.echo ≡ copying []
      → s.to_backend ≡ chunk ++ rest
      → 0 < length chunk
      → Step s (record s { echo = copying chunk; to_backend = rest })
  echo_writes :
      {held : Bytes}
      → s.echo ≡ copying held
      → 0 < length held
      → Step s (record s { echo = copying []; from_backend = s.from_backend ++ held })
  -- The proxy has closed the connection, or it has failed; the deferred `Close` follows.
  echo_ends : {held : Bytes} → s.echo ≡ copying held → Cut s → Step s (record s { echo = ended })
  download_reads :
      (chunk rest : Bytes)
      → s.download ≡ copying []
      → s.from_backend ≡ chunk ++ rest
      → 0 < length chunk
      → Step s (record s { download = copying chunk; from_backend = rest })
  download_writes :
      {held : Bytes}
      → s.download ≡ copying held
      → 0 < length held
      → Step s (record s { download = copying []; to_client = s.to_client ++ held })
  download_eof :
      s.download ≡ copying []
      → s.from_backend ≡ []
      → s.echo ≡ ended
      → Step s (record s { download = ended })
  -- A write to a client that has closed, or a connection that has failed
  download_fails :
      {held : Bytes}
      → s.download ≡ copying held
      → 0 < length held
      → s.client ≡ closed
      → Step s (record s { download = ended })
  download_breaks :
      {held : Bytes}
      → s.download ≡ copying held
      → s.broken ≡ true
      → Step s (record s { download = ended })
  breaks : s.broken ≡ false → Step s (record s { broken = true })

pub data Reach (reqs : List Bytes) : Exchange → Type 0 where
  begin : Reach reqs (connected reqs)
  later : {s t : Exchange} → Reach reqs s → Step s t → Reach reqs t

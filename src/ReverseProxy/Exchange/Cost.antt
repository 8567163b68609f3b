-- ===== src/ReverseProxy/Exchange/Cost.antt =====
-- The steps that are left, at most.
use performance_handbook.Base.{
  ℕ, ◌+◌, ◌*◌, ◌≤◌, ◌<◌, ap, Bool, true, false, List, [], ◌∷◌, ◌++◌, Bytes, length, length-append,
  arith, Option, none, some,
}
use performance_handbook.ReverseProxy.Exchange.{
  Client, sending, awaiting, failing, closed, Copy, copying, ended, Exchange, on_read, split_line,
  Step, write, write_fails, read, read_fails, fail_again, close, close_failed, upload_reads,
  upload_writes, upload_eof, upload_fails, echo_reads, echo_writes, echo_ends, download_reads,
  download_writes, download_eof, download_fails, download_breaks, breaks,
}

-- The steps that the requests still cost at most
abbrev pub request_cost : List Bytes → ℕ
request_cost [] = 0
request_cost (r ∷ rs) = 2 + 8 * length r + request_cost rs

abbrev pub client_cost : Client → ℕ
client_cost (sending rest) = 1 + request_cost rest
client_cost (awaiting request got rest) = 2 + request_cost rest
client_cost (failing rest) = 1 + request_cost rest
client_cost closed = 0

abbrev pub copy_cost : ℕ → Copy → ℕ
copy_cost hops (copying held) = 1 + hops * length held
copy_cost hops ended = 0

abbrev pub sound_cost : Bool → ℕ
sound_cost true = 0
sound_cost false = 1

-- Every byte costs the hops that are before it.
pub exchange_cost : Exchange → ℕ
exchange_cost s =
    client_cost s.client
    + 7 * length s.to_proxy
    + copy_cost 6 s.upload
    + 5 * length s.to_backend
    + copy_cost 4 s.echo
    + 3 * length s.from_backend
    + copy_cost 2 s.download
    + length s.to_client
    + sound_cost s.broken

on_read-cost :
    (s : Exchange) (request p : Bytes) (more : List Bytes) (o : Option (Bytes × Bytes))
    → exchange_cost (on_read s request p more o)
      ≤ exchange_cost (record s { client = awaiting request p more })
unfolding exchange_cost
on_read-cost s request p more none = omega arith
on_read-cost s request p more (some (line, over)) = omega arith

pub Step-cost : {s t : Exchange} → Step s t → exchange_cost t < exchange_cost s
unfolding exchange_cost
Step-cost {s} (write {request} {reqs = rest} e) =
    omega (arith, ap client_cost e, length-append s.to_proxy request)
Step-cost (write_fails e cut) = omega (arith, ap client_cost e)
Step-cost {s} (read {request} {got} {reqs = more} chunk rest e f some_bytes) = omega (
  arith,
  ap client_cost e,
  ap length f,
  length-append chunk rest,
  on_read-cost (record s { to_client = rest }) request (got ++ chunk) more
      (split_line (got ++ chunk)),
)
Step-cost (read_fails e cut) = omega (arith, ap client_cost e)
Step-cost (fail_again e) = omega (arith, ap client_cost e)
Step-cost (close e) = omega (arith, ap client_cost e)
Step-cost (close_failed e) = omega (arith, ap client_cost e)
Step-cost (upload_reads chunk rest e f some_bytes) =
    omega (arith, ap (copy_cost 6) e, ap length f, length-append chunk rest)
Step-cost {s} (upload_writes {held} e some_bytes) =
    omega (arith, ap (copy_cost 6) e, length-append s.to_backend held)
Step-cost (upload_eof e f c) = omega (arith, ap (copy_cost 6) e)
Step-cost (upload_fails e cut) = omega (arith, ap (copy_cost 6) e)
Step-cost (echo_reads chunk rest e f some_bytes) =
    omega (arith, ap (copy_cost 4) e, ap length f, length-append chunk rest)
Step-cost {s} (echo_writes {held} e some_bytes) =
    omega (arith, ap (copy_cost 4) e, length-append s.from_backend held)
Step-cost (echo_ends e cut) = omega (arith, ap (copy_cost 4) e)
Step-cost (download_reads chunk rest e f some_bytes) =
    omega (arith, ap (copy_cost 2) e, ap length f, length-append chunk rest)
Step-cost {s} (download_writes {held} e some_bytes) =
    omega (arith, ap (copy_cost 2) e, length-append s.to_client held)
Step-cost (download_eof e f c) = omega (arith, ap (copy_cost 2) e)
Step-cost (download_fails e some_bytes c) = omega (arith, ap (copy_cost 2) e)
Step-cost (download_breaks e broken) = omega (arith, ap (copy_cost 2) e)
Step-cost (breaks e) = omega (arith, ap sound_cost e)

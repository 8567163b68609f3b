-- ===== src/ReverseProxy/Engine/Forwarding.antt =====
-- What an event does to one connection of the table.
use performance_handbook.Base.{
  ℕ, ◌≡◌, ◌≢◌, refl, true, [], ◌∷◌, ◌++◌, none, some, arith, Bytes, take,
}
use performance_handbook.ReverseProxy.Engine.{
  ProxyConn, EpollEngine, put, ReadResult, read_error, bytes, WriteResult, write_error, took,
  close_conn, destination, handle_event,
}
use performance_handbook.ReverseProxy.Engine.Pairs.{IsPair}

-- For either end of a pair: the bytes that `Write` takes go to the other end, which stands in the
-- table with the same connection and sends back to the first; nothing is closed and the table is
-- kept. Bytes behind the first `n` are not written.
pub handle_event_forwards :
    (e : EpollEngine) (fd : ℕ) (pc : ProxyConn) (b : ℕ) (bs : Bytes) (n : ℕ)
    → e.conns fd ≡ some pc
    → IsPair e.conns fd pc
    → (handle_event e fd true (bytes (b ∷ bs)) (took n)
        ≡ record e { written = e.written ++ (destination pc fd, take n (b ∷ bs)) ∷ [] })
      × (e.conns (destination pc fd) ≡ some pc)
      × (destination pc fd ≢ fd)
      × (destination pc (destination pc fd) ≡ fd)
unfolding handle_event destination
handle_event_forwards e fd pc b bs n at pair =
    (rw (at, handle_event) refl, ground arith, ground arith, ground arith)

-- A read that fails, the end of the stream, or a write that fails.
pub data Ends : ReadResult → WriteResult → Type 0 where
  read_fails : {w : WriteResult} → Ends read_error w
  at_end : {w : WriteResult} → Ends (bytes []) w
  write_fails : {b : ℕ} {bs : Bytes} → Ends (bytes (b ∷ bs)) write_error

closes :
    (e : EpollEngine) (fd : ℕ) (pc : ProxyConn) {read : ReadResult} {write : WriteResult}
    → e.conns fd ≡ some pc
    → Ends read write
    → handle_event e fd true read write ≡ close_conn e pc
unfolding handle_event close_conn
closes e fd pc at read_fails = rw (at, handle_event) refl
closes e fd pc at at_end = rw (at, handle_event) refl
closes e fd pc at write_fails = rw (at, handle_event) refl

-- When the read or the write of a readable end fails, or the stream is at its end: both descriptors
-- of the connection are closed, once each, and the table loses the entries of that end and of the
-- other one, and no more.
pub handle_event_closes :
    (e : EpollEngine) (fd : ℕ) (pc : ProxyConn) (read : ReadResult) (write : WriteResult)
    → e.conns fd ≡ some pc
    → IsPair e.conns fd pc
    → Ends read write
    → ((handle_event e fd true read write).closed ≡ e.closed ++ pc.client_fd ∷ pc.backend_fd ∷ [])
      × ((other : ℕ)
          → (handle_event e fd true read write).conns other
            ≡ put (put e.conns fd none) (destination pc fd) none other)
unfolding close_conn destination
handle_event_closes e fd pc read write at pair ends =
    rw (closes e fd pc at ends) (refl, λ other. ground arith)

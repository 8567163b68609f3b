-- ===== src/ReverseProxy/Exchange/Tests.antt =====
-- The requests of the client, each there and back in one piece.
use performance_handbook.Base.{
  sym, append-nil, subst, length, All, some, ◌<◌, ◌≡◌, ◌⊎◌, refl, true, false, List, [], ◌∷◌, ◌++◌,
  Bytes, codes, arith,
}
use performance_handbook.ReverseProxy.Exchange.{
  closed, Exchange, Step, requests, connected, split_line, write, upload_reads, upload_writes,
  echo_reads, echo_writes, download_reads, download_writes, read, close, upload_eof, Reach, begin,
  later, sending, awaiting, on_read, ended,
}
use performance_handbook.ReverseProxy.Exchange.Lines.{IsLine}
use performance_handbook.ReverseProxy.Exchange.Answers.{prints_requests}
use performance_handbook.ReverseProxy.Exchange.Cost.{exchange_cost}
use performance_handbook.ReverseProxy.Exchange.Settling.{MovesOn, LeftOpen, comes_to_rest}

-- A request at rest goes round.
round :
    {reqs : List Bytes} (request : Bytes) (rest printed : List Bytes)
    → split_line request ≡ some (request, [])
    → 0 < length request
    → Reach reqs (record (connected reqs) { client = sending (request ∷ rest); printed = printed })
    → Reach reqs
        (record (connected reqs) { client = sending rest; printed = printed ++ request ∷ [] })
round {reqs} request rest printed line some_bytes r =
    let sent = later r (write refl) in
    let up =
      later (later sent (upload_reads request [] refl (sym (append-nil request)) some_bytes))
        (upload_writes refl some_bytes) in
    let at =
      later (later up (echo_reads request [] refl (sym (append-nil request)) some_bytes))
        (echo_writes refl some_bytes) in
    let down =
      later (later at (download_reads request [] refl (sym (append-nil request)) some_bytes))
        (download_writes refl some_bytes) in
    let answered = later down (read request [] refl (sym (append-nil request)) some_bytes) in
    subst
      (λ o. Reach reqs (
        on_read (record (connected reqs) { client = awaiting request [] rest; printed = printed })
          request request rest o))
      line answered

asked : Reach requests (record (connected requests) { client = sending []; printed = requests })
unfolding split_line
asked = round (codes "Hello 3\n") _ _ refl (omega arith) (
    round (codes "Hello 2\n") _ _ refl (omega arith)
      (round (codes "Hello 1\n") _ _ refl (omega arith) begin))

abbrev at_rest : Exchange
at_rest = record (connected requests) { client = closed; printed = requests; upload = ended }

served : Reach requests at_rest
served = later (later asked (close refl)) (upload_eof refl refl refl)

pub requests-lines : All IsLine requests
unfolding split_line
requests-lines = (refl, (refl, (refl, tt)))

prints_requests_example :
    ((rest : List Bytes) × (requests ++ rest ≡ requests))
    × ((requests ≡ requests) ⊎ ((false ≡ true) ⊎ ¬ (closed ≡ closed)))
prints_requests_example = prints_requests requests requests-lines served

comes_to_rest_example :
    (MovesOn at_rest ⊎ LeftOpen requests at_rest)
    × ((t : Exchange) → Step at_rest t → exchange_cost t < exchange_cost at_rest)
comes_to_rest_example = comes_to_rest requests requests-lines served refl

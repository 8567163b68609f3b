-- ===== src/ReverseProxy/Exchange/Answers.antt =====
-- What the client prints.
use performance_handbook.Base.{
  ◌≡◌, ◌⊎◌, inl, inr, true, false, Bool-cases, List, ◌∷◌, ◌++◌, All, Bytes,
}
use performance_handbook.ReverseProxy.Exchange.{
  Client, sending, awaiting, failing, closed, Exchange, Reach,
}
use performance_handbook.ReverseProxy.Exchange.Lines.{IsLine}
use performance_handbook.ReverseProxy.Exchange.Flow.{flow}
use performance_handbook.ReverseProxy.Exchange.Invariant.{Talks, Started}
use performance_handbook.ReverseProxy.Exchange.Kept.{Reach-Inv}

Talks-Started :
    (reqs : List Bytes) (c : Client) (s : Exchange)
    → Talks reqs c s.printed (flow s) s.broken
    → Started reqs s.printed
Talks-Started reqs (sending rest) s h = (rest, h.0)
Talks-Started reqs (awaiting request got rest) s h = (request ∷ rest, h.0)
Talks-Started reqs (failing rest) s h = h.0
Talks-Started reqs closed s h = h.0

all_or_open :
    (reqs : List Bytes) (c : Client) (s : Exchange)
    → Talks reqs c s.printed (flow s) s.broken
    → s.broken ≡ false
    → (s.printed ≡ reqs) ⊎ ((s.broken ≡ true) ⊎ ¬ (c ≡ closed))
all_or_open reqs (sending rest) s h sound = inr (inr (λ e. cc))
all_or_open reqs (awaiting request got rest) s h sound = inr (inr (λ e. cc))
all_or_open reqs (failing rest) s h sound = inr (inr (λ e. cc))
all_or_open reqs closed s h sound = inl (h.1 sound).0

-- For requests that are lines, in any state that the client, the proxy and the backend reach,
-- whatever the pieces in which the bytes travel: what the client has printed are the first of its
-- requests, in order; and these are all of them, unless a connection has failed or the client has
-- not closed yet.
pub prints_requests :
    (reqs : List Bytes) {s : Exchange}
    → All IsLine reqs
    → Reach reqs s
    → ((rest : List Bytes) × (s.printed ++ rest ≡ reqs))
      × ((s.printed ≡ reqs) ⊎ ((s.broken ≡ true) ⊎ ¬ (s.client ≡ closed)))
prints_requests reqs {s} lines r = (
  Talks-Started reqs s.client s talks,
  elim (Bool-cases s.broken) [
    | inl broken ↦ inr (inl broken)
    | inr sound ↦ all_or_open reqs s.client s talks sound
  ],
)
  where
    talks : Talks reqs s.client s.printed (flow s) s.broken
    talks = (Reach-Inv reqs lines r).talks

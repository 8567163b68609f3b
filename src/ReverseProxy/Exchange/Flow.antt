-- ===== src/ReverseProxy/Exchange/Flow.antt =====
-- What is on its way to the client, through both connections and the three copies.
use performance_handbook.Base.{◌≡◌, refl, sym, ◌∙◌, ap, [], ◌++◌, append_assoc, append-nil, Bytes}
use performance_handbook.ReverseProxy.Exchange.{Copy, copying, ended, Exchange}

-- What comes out behind a copy: what it holds, and then what comes to it; nothing once it has
-- returned.
abbrev pub behind : Copy → Bytes → Bytes
behind (copying held) stream = held ++ stream
behind ended stream = []

-- Towards the backend, and back from it
abbrev pub onward : Exchange → Bytes
onward s = s.to_backend ++ behind s.upload s.to_proxy

abbrev pub back : Exchange → Bytes
back s = s.from_backend ++ behind s.echo (onward s)

abbrev pub flow : Exchange → Bytes
flow s = s.to_client ++ behind s.download (back s)

-- `ys` is `xs`, but for an end that may be lost.
pub record Covers (xs ys : Bytes) : Type 0 where
  pub lost : Bytes
  pub kept : xs ≡ ys ++ lost

pub keeps_all : {xs ys : Bytes} → xs ≡ ys → Covers xs ys
keeps_all {ys = ys} e = record { lost = []; kept = e ∙ sym (append-nil ys) }

pub append-Covers : (a : Bytes) {xs ys : Bytes} → Covers xs ys → Covers (a ++ xs) (a ++ ys)
append-Covers a {ys = ys} k = record {
  lost = k.lost;
  kept = ap (λ z. a ++ z) k.kept ∙ sym (append_assoc a ys k.lost);
}

pub behind-Covers : (c : Copy) {xs ys : Bytes} → Covers xs ys → Covers (behind c xs) (behind c ys)
behind-Covers (copying held) k = append-Covers held k
behind-Covers ended k = keeps_all refl

module _ (r : Bytes) where
  -- What comes to a stream at its end, comes to it behind a copy too, unless that has returned.
  append-follows :
      (a xs : Bytes) {ys : Bytes} → Covers (xs ++ r) ys → Covers ((a ++ xs) ++ r) (a ++ ys)
  append-follows a xs k =
      let j = append-Covers a k in record { lost = j.lost; kept = append_assoc a xs r ∙ j.kept }

  behind-follows :
      (c : Copy) (xs : Bytes) {ys : Bytes}
      → Covers (xs ++ r) ys
      → Covers (behind c xs ++ r) (behind c ys)
  behind-follows (copying held) xs k = append-follows held xs k
  behind-follows ended xs k = record { lost = r; kept = refl }

  pub flow-follows :
      (s : Exchange) → Covers (flow s ++ r) (flow (record s { to_proxy = s.to_proxy ++ r }))
  flow-follows s = append-follows s.to_client _ (
      behind-follows s.download _ (
        append-follows s.from_backend _ (
          behind-follows s.echo _
            (append-follows s.to_backend _ (behind-follows s.upload s.to_proxy (keeps_all refl))))))

  -- Nothing is lost if the copies run.
  pub flow-append :
      (s : Exchange) (u e d : Bytes)
      → s.upload ≡ copying u
      → s.echo ≡ copying e
      → s.download ≡ copying d
      → flow s ++ r ≡ flow (record s { to_proxy = s.to_proxy ++ r })
  flow-append s u e d up at down = rw (up, at, down) (simp append_assoc)

-- ===== src/DocPipeline/Pipeline/Links.antt =====
-- Each stage of the line, seen alone, is a stage; and what leaves one is what the next was sent.
use performance_handbook.Base.{
  Bool-cases, ◌⊎◌, inl, inr, ◌≡◌, refl, sym, ap, ◌∙◌, subst, true, false, List, [], ◌∷◌, ◌++◌,
  Option, arith,
}
use performance_handbook.Base.Int.{pos_part}
use performance_handbook.DocPipeline.Stage.{
  Stage, Worker, ready, sending, State, Move, see_cancelled, see_closed, receive, count_item,
  call_ok, call_error, count_error, record_latency, send, give_up, worker, close_out, offer,
  close_in, consume, Reach, later,
}
use performance_handbook.DocPipeline.Stage.Safety.{out_open_for_send}
use performance_handbook.DocPipeline.Pipeline.{Inner, work, close, gives, takes}

module _ {ℓ κ} {I : Type ℓ} {O : Type κ} (fn : I → Option O) (stage : Stage) where
  inner-Reach :
      {s t : State I O}
      → pos_part stage.buffer_size ≡ 100
      → Reach fn stage s
      → Inner fn s t
      → Reach fn stage t
  inner-Reach {s} size r (work ws vs {w} {w'} {t} e m) =
      later r (worker ws vs e (subst (λ c. Move fn c s w t w') (sym size) m))
  inner-Reach size r (close e o) = later r (close_out e o)

  takes-Reach :
      {s : State I O} (x : I) (ws vs : List (Worker I O))
      → s.input ≡ []
      → s.in_closed ≡ false
      → s.workers ≡ ws ++ ready ∷ vs
      → Reach fn stage s
      → Reach fn stage (takes s x ws vs)
  takes-Reach x ws vs empty not_closed e r =
      later (later r (offer x not_closed))
        (worker ws vs e (receive (ap (λ xs. xs ++ x ∷ []) empty)))

  gives-Reach :
      {s : State I O} (y : O) (ys : List O)
      → s.out ≡ y ∷ ys
      → Reach fn stage s
      → Reach fn stage (gives s y ys)
  gives-Reach y ys e r = later r (consume e)

-- What an inner step leaves as it is.
abbrev pub Kept {ℓ κ} : {I : Type ℓ} {O : Type κ} → State I O → State I O → Type (ℓ ⊔ κ)
Kept s t =
    (s.input ≡ [] → t.input ≡ [])
    × (t.in_closed ≡ s.in_closed)
    × (t.cancelled ≡ s.cancelled)
    × (t.offered ≡ s.offered)
    × (t.consumed ≡ s.consumed)
    × (s.out_closed ≡ true → t.out_closed ≡ true)

module _ {ℓ κ} {I : Type ℓ} {O : Type κ} (fn : I → Option O) where
  Move-Kept : {s t : State I O} {w w' : Worker I O} → Move fn 100 s w t w' → Kept s t
  Move-Kept (see_cancelled e) = (λ h. h, refl, refl, refl, refl, λ h. h)
  Move-Kept (see_closed e f) = (λ h. h, refl, refl, refl, refl, λ h. h)
  Move-Kept (receive e) = (λ h. ground arith, refl, refl, refl, refl, λ h. h)
  Move-Kept count_item = (λ h. h, refl, refl, refl, refl, λ h. h)
  Move-Kept (call_ok e) = (λ h. h, refl, refl, refl, refl, λ h. h)
  Move-Kept (call_error e) = (λ h. h, refl, refl, refl, refl, λ h. h)
  Move-Kept count_error = (λ h. h, refl, refl, refl, refl, λ h. h)
  Move-Kept record_latency = (λ h. h, refl, refl, refl, refl, λ h. h)
  Move-Kept (send h) = (λ h. h, refl, refl, refl, refl, λ h. h)
  Move-Kept (give_up h) = (λ h. h, refl, refl, refl, refl, λ h. h)

  pub Inner-Kept : {s t : State I O} → Inner fn s t → Kept s t
  Inner-Kept (work ws vs e m) = Move-Kept m
  Inner-Kept (close e o) = (λ h. h, refl, refl, refl, refl, λ h. refl)

  -- Only a send makes the channel longer.
  Move-out :
      {s t : State I O} {w w' : Worker I O}
      → Move fn 100 s w t w'
      → (t.out ≡ s.out) ⊎ ((x : I) × (y : O) × (w ≡ sending x y))
  Move-out (see_cancelled e) = inl refl
  Move-out (see_closed e f) = inl refl
  Move-out (receive e) = inl refl
  Move-out count_item = inl refl
  Move-out (call_ok e) = inl refl
  Move-out (call_error e) = inl refl
  Move-out count_error = inl refl
  Move-out record_latency = inl refl
  Move-out (send {x} {y} h) = inr (x, y, refl)
  Move-out (give_up h) = inl refl

  -- A channel that is closed and empty stays so.
  stays_empty :
      (stage : Stage) {s t : State I O}
      → Reach fn stage s
      → s.out_closed ≡ true
      → s.out ≡ []
      → Inner fn s t
      → t.out ≡ []
  stays_empty stage {s} r o empty (work ws vs e m) = elim (Move-out m) [
    | inl same ↦ same ∙ empty
    | inr (x, y, at) ↦
        let open_still = out_open_for_send fn stage r x y ws vs (e ∙ ap (λ w. ws ++ w ∷ vs) at) in
        ground arith
  ]
  stays_empty stage r o empty (close e f) = empty

-- The state of a stage that is part of the line.
pub record Part {ℓ κ} {I : Type ℓ} {O : Type κ} (fn : I → Option O) (stage : Stage) (s : State I O)
    : Type (ℓ ⊔ κ) where
  pub reach : Reach fn stage s
  pub alive : s.cancelled ≡ false

-- Two stages, one behind the other: what has left the first is what the second was sent; nothing
-- waits between them but in the channel; and the second sees the end only when the first has closed
-- it and it is empty.
abbrev pub Link {ℓ κ μ} : {I : Type ℓ} {M : Type κ} {O : Type μ} → State I M → State M O → Type κ
Link s t =
    (s.consumed ≡ t.offered)
    × (t.input ≡ [])
    × (t.in_closed ≡ true → (s.out_closed ≡ true) × (s.out ≡ []))

module _ {ℓ κ μ} {I : Type ℓ} {M : Type κ} {O : Type μ} (f : I → Option M) (g : M → Option O) where
  pub first_moves :
      (stage : Stage) {s s' : State I M} (t : State M O)
      → Part f stage s
      → Inner f s s'
      → Link s t
      → Link s' t
  first_moves stage t part i link =
      let (a, b, c, d, e, shut) = Inner-Kept f i in
      (
        e ∙ link.0,
        link.1,
        λ h.
            let (o, none_left) = link.2 h in (shut o, stays_empty f stage part.reach o none_left i),
      )

  pub second_moves : (s : State I M) {t t' : State M O} → Inner g t t' → Link s t → Link s t'
  second_moves s i link =
      let (a, b, c, d, e, shut) = Inner-Kept g i in
      (link.0 ∙ sym d, a link.1, λ h. link.2 (sym b ∙ h))

  pub pass :
      (s : State I M) (t : State M O) (y : M) (ys : List M) (ws vs : List (Worker M O))
      → s.out ≡ y ∷ ys
      → Link s t
      → Link (gives s y ys) (takes t y ws vs)
  pass s t y ys ws vs e link =
      (ap (λ all. all ++ y ∷ []) link.0, refl, λ h. let (o, none_left) = link.2 h in ground arith)

module _ {ℓ κ} {I : Type ℓ} {O : Type κ} {fn : I → Option O} {stage : Stage} where
  pub Part-inner :
      {s t : State I O}
      → pos_part stage.buffer_size ≡ 100
      → Part fn stage s
      → Inner fn s t
      → Part fn stage t
  Part-inner size p i = record {
    reach = inner-Reach fn stage size p.reach i;
    alive = (Inner-Kept fn i).2 ∙ p.alive;
  }

  pub Part-gives :
      {s : State I O} (y : O) (ys : List O)
      → s.out ≡ y ∷ ys
      → Part fn stage s
      → Part fn stage (gives s y ys)
  Part-gives y ys e p = record { reach = gives-Reach fn stage y ys e p.reach; alive = p.alive }

  pub Part-takes :
      {s : State I O} (x : I) (ws vs : List (Worker I O))
      → s.input ≡ []
      → s.in_closed ≡ false
      → s.workers ≡ ws ++ ready ∷ vs
      → Part fn stage s
      → Part fn stage (takes s x ws vs)
  Part-takes x ws vs empty not_closed e p = record {
    reach = takes-Reach fn stage x ws vs empty not_closed e p.reach;
    alive = p.alive;
  }

  pub Part-end :
      {s : State I O}
      → s.in_closed ≡ false
      → Part fn stage s
      → Part fn stage (record s { in_closed = true })
  Part-end e p = record { reach = later p.reach (close_in e); alive = p.alive }

-- While the stage before still holds a result, the input has not ended.
pub not_ended {ℓ κ μ} :
    {I : Type ℓ} {M : Type κ} {O : Type μ} (s : State I M) (t : State M O) (y : M) (ys : List M)
    → Link s t
    → s.out ≡ y ∷ ys
    → t.in_closed ≡ false
not_ended s t y ys link e = elim (Bool-cases t.in_closed) [
  | inl h ↦ let (o, none_left) = link.2 h in ground arith
  | inr h ↦ h
]

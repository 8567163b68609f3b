-- ===== src/DbQuery/Answers.antt =====
-- What the handler answers.
use Prim.Native.String.{String}
use performance_handbook.Base.{
  Bool, ◌≡◌, refl, sym, append-nil, ap, ◌∙◌, List, [], ◌∷◌, ◌++◌, append_assoc, Option, none, some,
}
use performance_handbook.DbQuery.{
  User, Scanned, scanned, refused, Rows, rows, Response, encoded, internal_server_error, append_to,
  collect, users_handler,
}

abbrev pub all_scanned : List User → List Scanned
all_scanned [] = []
all_scanned (u ∷ us) = scanned u ∷ all_scanned us

-- A slice with these elements, appended one by one
abbrev pub slice : List User → Option (List User)
slice [] = none
slice (u ∷ us) = some (u ∷ us)

-- The rows are those of `us`, and then none, or one that cannot be scanned.
abbrev pub Reads : List Scanned → List User → Option String → Type 0
Reads scans us none = scans ≡ all_scanned us
Reads scans us (some text) = (more : List Scanned) × (scans ≡ all_scanned us ++ refused text ∷ more)

abbrev pub answer : List User → Option String → Response
answer us none = encoded (slice us)
answer us (some text) = internal_server_error text

append_to-slice : (us : List User) (u : User) → append_to (slice us) u ≡ slice (us ++ u ∷ [])
unfolding append_to
append_to-slice [] u = refl
append_to-slice (v ∷ us) u = refl

abbrev Gathers : List User → List Scanned → Type 0
Gathers before scans =
    (us : List User) × (refusal : Option String) × Reads scans us refusal
    × (collect (slice before) scans ≡ answer (before ++ us) refusal)

collected_more :
    (before : List User) (u : User) (more : List Scanned)
    → Gathers (before ++ u ∷ []) more
    → Gathers before (scanned u ∷ more)
unfolding collect
collected_more before u more (us, none, reads, e) = (
  u ∷ us,
  none,
  ap (λ s. scanned u ∷ s) reads,
  rw (append_to-slice before u) (e ∙ ap (λ w. encoded (slice w)) (append_assoc before (u ∷ []) us)),
)
collected_more before u more (us, some text, (after, reads), e) =
    (u ∷ us, some text, (after, ap (λ s. scanned u ∷ s) reads), rw (append_to-slice before u) e)

collected : (before : List User) (scans : List Scanned) → Gathers before scans
unfolding collect
collected before [] = ([], none, refl, ap (λ w. encoded (slice w)) (sym (append-nil before)))
collected before (scanned u ∷ more) =
    collected_more before u more (collected (before ++ u ∷ []) more)
collected before (refused text ∷ more) = ([], some text, (more, refl), refl)

-- For any rows: the handler encodes all of them, in order, if every row can be scanned, and else
-- answers with the error of the first that cannot, and no users. If `rows.Next` ends because of an
-- error, the answer is the same as if there were no more rows.
pub answers_rows :
    (r : Rows)
    → (us : List User) × (refusal : Option String) × Reads r.scans us refusal
      × (users_handler (rows r) ≡ answer us refusal)
      × ((cut : Bool) → users_handler (rows (record r { cut_short = cut })) ≡ answer us refusal)
unfolding users_handler
answers_rows r =
    let (us, refusal, reads, e) = collected [] r.scans in (us, refusal, reads, e, λ cut. e)

-- ===== src/DbQuery/Tests.antt =====
-- Two users; and a row that cannot be scanned between them.
use performance_handbook.Base.{◌≡◌, refl, Bool, true, List, [], ◌∷◌, Option, none, some}
use performance_handbook.Base.Int.{pos}
use performance_handbook.DbQuery.{
  User, scanned, refused, Rows, rows, failed, encoded, internal_server_error, append_to,
  users_handler,
}
use performance_handbook.DbQuery.Answers.{Reads, answer, answers_rows}
use Prim.Native.String.{String}

abbrev ada : User
ada = record { id = pos 1; name = "Ada"; email = "ada@example.org" }

abbrev bob : User
bob = record { id = pos 2; name = "Bob"; email = "bob@example.org" }

abbrev spoiled : Rows
spoiled = record { scans = scanned ada ∷ refused "no id" ∷ scanned bob ∷ []; cut_short = true }

both :
    users_handler (rows (record spoiled { scans = scanned ada ∷ scanned bob ∷ [] }))
    ≡ encoded (some (ada ∷ bob ∷ []))
unfolding users_handler append_to
both = refl

nobody : users_handler (rows (record spoiled { scans = [] })) ≡ encoded none
unfolding users_handler
nobody = refl

no_table :
    users_handler (failed "no such table: users") ≡ internal_server_error "no such table: users"
unfolding users_handler
no_table = refl

answers_rows_example :
    (us : List User) × (refusal : Option String) × Reads spoiled.scans us refusal
    × (users_handler (rows spoiled) ≡ answer us refusal)
    × ((cut : Bool) → users_handler (rows (record spoiled { cut_short = cut })) ≡ answer us refusal)
answers_rows_example = answers_rows spoiled

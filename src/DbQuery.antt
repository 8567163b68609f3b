-- ===== src/DbQuery.antt =====
-- applications/db-query/main.go: the handler of /users.
pub mod Answers
mod Tests
use Prim.Native.String.{String}
use performance_handbook.Base.{ℕ, Bool, List, [], ◌∷◌, ◌++◌, Option, none, some}
use performance_handbook.Base.Int.{ℤ}

pub record User : Type 0 where
  pub id : ℤ
  pub name : String
  pub email : String

-- What `rows.Scan` gives for a row: the columns, or the text of an error
pub data Scanned : Type 0 where
  scanned : User → Scanned
  refused : String → Scanned

-- The rows that `rows.Next` comes to, and whether it ends because of an error, which `rows.Err`
-- would give
pub record Rows : Type 0 where
  pub scans : List Scanned
  pub cut_short : Bool

-- What `db.Query` gives
pub data Queried : Type 0 where
  rows : Rows → Queried
  failed : String → Queried

-- The response: the encoded users, or `http.Error`. The users are a slice, which is nil (`none`)
-- until something is appended to it.
pub data Response : Type 0 where
  encoded : Option (List User) → Response
  internal_server_error : String → Response

pub append_to : Option (List User) → User → Option (List User)
append_to none u = some (u ∷ [])
append_to (some us) u = some (us ++ u ∷ [])

-- The loop over the rows
pub collect : Option (List User) → List Scanned → Response
collect users [] = encoded users
collect users (scanned u ∷ more) = collect (append_to users u) more
collect users (refused text ∷ more) = internal_server_error text

-- The handler
pub users_handler : Queried → Response
unfolding collect
users_handler (failed text) = internal_server_error text
users_handler (rows r) = collect none r.scans

-- ===== src/FsMonitor/Tests.antt =====
-- A file, and a directory that cannot be watched.
use Prim.Native.String.{String}
use performance_handbook.Base.{ℕ, ◌≡◌, refl, true, false, List, [], ◌∷◌, Option, none, some}
use performance_handbook.FsMonitor.{
  Visit, failed, new_tracker, add_dir_recursive, visit, tracker_of,
}

abbrev refuses : String → Option ℕ
refuses path = some 28

abbrev a_walk : List Visit
a_walk =
    record { path = "notes"; is_dir = false; err = none }
    ∷ record { path = "sub"; is_dir = true; err = none }
    ∷ []

refused : new_tracker refuses none a_walk ≡ failed 28
unfolding new_tracker add_dir_recursive visit tracker_of
refused = refl

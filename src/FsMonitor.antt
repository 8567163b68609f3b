-- ===== src/FsMonitor.antt =====
-- applications/fs-monitor/tracking/tracker.go: the directories that are watched. The watcher of
-- fsnotify and the walk of the standard library are parameters.
pub mod Watching
pub mod Logging
mod Tests
use Prim.Native.String.{String}
use performance_handbook.Base.{
  ℕ, Bool, true, false, List, [], ◌∷◌, ◌++◌, Option, none, some, if◌then◌else◌,
}

-- A call of the function that `filepath.WalkDir` is given.
pub record Visit : Type 0 where
  pub path : String
  pub is_dir : Bool
  pub err : Option ℕ

-- `NewTracker`: the tracker with what its watcher watches, or the error
pub data Tracker : Type 0 where
  tracking : List String → Tracker
  failed : ℕ → Tracker

unfoldable pub tracker_of : List String × Option ℕ → Tracker
tracker_of (watched, none) = tracking watched
tracker_of (watched, some e) = failed e

-- `add` is what `watcher.Add` answers: none, or an error.
module _ (add : String → Option ℕ) where
  -- That function: the paths that are watched afterwards, and its error
  unfoldable pub visit : List String → Visit → List String × Option ℕ
  visit watched v = elim v.err [
    | some e ↦ (watched, some e)
    | none ↦ elim v.is_dir [
      | false ↦ (watched, none)
      | true ↦ elim (add v.path) [
        | some e ↦ (watched, some e)
        | none ↦ (watched ++ v.path ∷ [], none)
      ]
    ]
  ]

  -- `addDirRecursive`, for the calls that `WalkDir` makes until one returns an error
  unfoldable pub add_dir_recursive : List String → List Visit → List String × Option ℕ
  add_dir_recursive watched [] = (watched, none)
  add_dir_recursive watched (v ∷ vs) =
      let (after, e) = visit watched v in
      elim e [ some problem ↦ (after, some problem) | none ↦ add_dir_recursive after vs ]

  -- `made` is what `fsnotify.NewWatcher` answers: none, or an error.
  unfoldable pub new_tracker : Option ℕ → List Visit → Tracker
  new_tracker (some e) visits = failed e
  new_tracker none visits = tracker_of (add_dir_recursive [] visits)

-- What a receive of `Run` gives: an event or an error of the watcher, or that one of the two
-- channels is closed
pub data Received : Type 0 where
  event : String → Received
  problem : String → Received
  closed : Received

-- What `Run` writes to the log: `handleEvent`, or the error
pub data Logged : Type 0 where
  detected : String → Logged
  reported : String → Logged

-- `Run`, with what it receives, in order: its log, and whether it has returned
unfoldable pub run_tracker : List Received → List Logged × Bool
run_tracker [] = ([], false)
run_tracker (closed ∷ more) = ([], true)
run_tracker (event e ∷ more) = let (log, done) = run_tracker more in (detected e ∷ log, done)
run_tracker (problem p ∷ more) = let (log, done) = run_tracker more in (reported p ∷ log, done)

-- ===== src/FsMonitor/Watching.antt =====
-- What is watched.
use Prim.Native.String.{String}
use performance_handbook.Base.{
  ℕ, ◌≡◌, ◌⊎◌, inl, inr, refl, sym, ap, ◌∙◌, true, false, List, [], ◌∷◌, ◌++◌, append_assoc,
  append-nil, Option, none, some, All, Option-cases, Bool-cases, if◌then◌else◌,
}
use performance_handbook.FsMonitor.{
  Visit, visit, add_dir_recursive, tracking, failed, tracker_of, new_tracker,
}

abbrev pub directories : List Visit → List String
directories [] = []
directories (v ∷ vs) = if v.is_dir then v.path ∷ directories vs else directories vs

-- A visit without an error, of a directory that can be watched or of a file.
abbrev pub Fine : (String → Option ℕ) → Visit → Type 0
Fine add v = (v.err ≡ none) × ((v.is_dir ≡ false) ⊎ (add v.path ≡ none))

-- The error of a visit, or that of watching its directory.
abbrev pub Fails : (String → Option ℕ) → Visit → ℕ → Type 0
Fails add v e = (v.err ≡ some e) ⊎ ((v.is_dir ≡ true) × (add v.path ≡ some e))

module _ (add : String → Option ℕ) where
  -- A walk comes to its end, or stops at the first visit that fails.
  abbrev pub Stops : List Visit → List Visit → ℕ → Type 0
  Stops vs before e =
      (v : Visit) × (after : List Visit) × (vs ≡ before ++ v ∷ after)
      × All (Fine add) before
      × Fails add v e

  visit-cases :
      (watched : List String) (v : Visit)
      → (Fine add v × (visit add watched v ≡ (watched ++ directories (v ∷ []), none)))
        ⊎ ((e : ℕ) × Fails add v e × (visit add watched v ≡ (watched, some e)))
  unfolding visit
  visit-cases watched v = elim (Option-cases v.err) [
    | inr (e, broken) ↦ inr (e, inl broken, rw (broken, visit) refl)
    | inl readable ↦ elim (Bool-cases v.is_dir) [
      | inr file ↦ inl ((readable, inl file), rw (readable, file, visit, append-nil watched) refl)
      | inl dir ↦ elim (Option-cases (add v.path)) [
        | inl added ↦ inl ((readable, inr added), rw (readable, dir, added, visit) refl)
        | inr (e, refused) ↦ inr (e, inr (dir, refused), rw (readable, dir, refused, visit) refl)
      ]
    ]
  ]

  directories_after :
      (watched : List String) (v : Visit) (vs : List Visit)
      → (watched ++ directories (v ∷ [])) ++ directories vs ≡ watched ++ directories (v ∷ vs)
  directories_after watched v vs = elim (Bool-cases v.is_dir) [
    | inl dir ↦ rw dir (append_assoc watched (v.path ∷ []) (directories vs))
    | inr file ↦ rw file (ap (λ w. w ++ directories vs) (append-nil watched))
  ]

  -- What follows a visit.
  abbrev go_on : List Visit → List String × Option ℕ → List String × Option ℕ
  go_on vs r = elim r.1 [ none ↦ add_dir_recursive add r.0 vs | some problem ↦ (r.0, some problem) ]

  walk :
      (watched : List String) (vs : List Visit)
      → (All (Fine add) vs × (add_dir_recursive add watched vs ≡ (watched ++ directories vs, none)))
        ⊎ ((before : List Visit) × (e : ℕ) × Stops vs before e
            × (add_dir_recursive add watched vs ≡ (watched ++ directories before, some e)))
  unfolding add_dir_recursive
  walk watched [] = inl (tt, ap (λ w. (w, none)) (sym (append-nil watched)))
  walk watched (v ∷ vs) = elim (visit-cases watched v) [
    | inr (e, fails, stopped) ↦ inr (
      [],
      e,
      (v, vs, refl, tt, fails),
      ap (go_on vs) stopped ∙ (ap (λ w. (w, some e)) (sym (append-nil watched))),
    )
    | inl (fine, went_on) ↦ elim (walk (watched ++ directories (v ∷ [])) vs) [
      | inl (all, ended) ↦ inl (
        (fine, all),
        ap (go_on vs) went_on ∙ (ended ∙ ap (λ w. (w, none)) (directories_after watched v vs)),
      )
      | inr (before, e, (bad, after, split, all, fails), stopped) ↦ inr (
        v ∷ before,
        e,
        (bad, after, ap (◌∷◌ v) split, (fine, all), fails),
        ap (go_on vs) went_on
            ∙ (stopped ∙ ap (λ w. (w, some e)) (directories_after watched v before)),
      )
    ]
  ]

  -- For a watcher that could be made, and any walk: either every visit is fine, and the tracker
  -- watches just the directories that are visited, in order; or `NewTracker` returns the error of
  -- the first visit that fails, where a visit fails by an error of the walk or of watching a
  -- directory. Without a watcher, it returns that error.
  pub watches_directories :
      (vs : List Visit) (problem : ℕ)
      → ((All (Fine add) vs × (new_tracker add none vs ≡ tracking (directories vs)))
          ⊎ ((before : List Visit) × (e : ℕ) × Stops vs before e
              × (new_tracker add none vs ≡ failed e)))
        × (new_tracker add (some problem) vs ≡ failed problem)
  unfolding new_tracker tracker_of
  watches_directories vs problem = (
    (elim (walk [] vs) [
      | inl (all, ended) ↦ inl (all, ap tracker_of ended)
      | inr (before, e, where_at, stopped) ↦ inr (before, e, where_at, ap tracker_of stopped)
    ]),
    refl,
  )

-- ===== src/Migrate/Again.antt =====
-- migrate.py, apply_migrations: a run that returns, and a second one.
use sb_poc.Prelude.{
  String, String_eq, true, List, [], ◌∷◌, ◌++◌, ◌≡◌, refl, ap, sym, ◌∙◌, arith, Result, ok,
}
use sb_poc.Migrate.{
  SqlFile, MigratedDb, Done, in_names, recorded, create_table, apply_files, apply_migrations,
  sort_files,
}
use sb_poc.Migrate.Files.{names, unrecorded, in_names-sort, recorded_after, pending_none}
use sb_poc.Migrate.Runs.{apply_files-returned}

module _ {D : Type 0} (execute : String → D → Result Done × D) where
  -- A run that returns has applied the files that were not recorded, in the order of their names, and
  -- has recorded them after the others.
  pub apply_migrations-returned :
      (files : List SqlFile) (s t : MigratedDb D) (applied : List String)
      → apply_migrations execute files s ≡ (ok applied, t)
      → (applied ≡ names (unrecorded (recorded s) (sort_files files)))
        × (recorded t ≡ recorded s ++ applied)
  unfolding apply_migrations
  apply_migrations-returned files s t applied h =
      apply_files-returned execute (recorded s) (sort_files files) (create_table s).1 t applied h

  nothing_pending :
      (files : List SqlFile) (s : MigratedDb D)
      → unrecorded (recorded s) (sort_files files) ≡ []
      → apply_migrations execute files s ≡ (ok [], (create_table s).1)
  unfolding apply_migrations apply_files
  nothing_pending files s none_left = skip (sort_files files) none_left
    where
      skip :
          (fs : List SqlFile)
          → unrecorded (recorded s) fs ≡ []
          → apply_files execute (recorded s) fs (create_table s).1 ≡ (ok [], (create_table s).1)
      skip [] h = refl
      skip (f ∷ fs) h = ground (arith, h, skip fs)

  -- After a run that returns, a run over files whose names were all among the files of the first, in any
  -- order of the directory, applies none and leaves the tables and the records as they are.
  pub apply_migrations_again :
      (files again : List SqlFile) (s t : MigratedDb D) (applied : List String)
      → ((x : String) → in_names x (names again) ≡ true → in_names x (names files) ≡ true)
      → apply_migrations execute files s ≡ (ok applied, t)
      → (t' : MigratedDb D) × (apply_migrations execute again t ≡ (ok [], t'))
        × (t'.tables ≡ t.tables)
        × (recorded t' ≡ recorded t)
  apply_migrations_again files again s t applied known h =
      let (same, grown) = apply_migrations-returned files s t applied h in
      let end : recorded t ≡ recorded s ++ names (unrecorded (recorded s) (sort_files files)) =
        grown ∙ ap (λ z. recorded s ++ z) same in
      let none_left : unrecorded (recorded t) (sort_files again) ≡ [] =
        pending_none (recorded t) (sort_files again) (λ x e. rw end (
          recorded_after x (recorded s) (sort_files files)
            (in_names-sort x files ∙ known x (sym (in_names-sort x again) ∙ e)))) in
      ((create_table t).1, nothing_pending again t none_left, refl, refl)

-- ===== src/Migrate/Resume.antt =====
-- migrate.py, apply_migrations: a run that raises, and the one after it.
use sb_poc.Prelude.{
  String, String_eq, List, ◌∷◌, ◌++◌, ◌≡◌, ap, ◌∙◌, subst, Result, ok, raise, Error,
}
use sb_poc.Migrate.{SqlFile, MigratedDb, Done, recorded, create_table, apply_migrations, sort_files}
use sb_poc.Migrate.Files.{
  names, unrecorded, Distinct, sort-Distinct, unrecorded-Distinct, unrecorded-append, pending_rest,
}
use sb_poc.Migrate.Runs.{apply_files-raised}
use sb_poc.Migrate.Again.{apply_migrations-returned}

module _ {D : Type 0} (execute : String → D → Result Done × D) where
  -- A run that raises at a file has recorded the files before it, in the order of their names, and no
  -- others. If the files have distinct names, a run after it that returns, with whatever effect the
  -- texts have then, applies the file that failed and those behind it.
  pub apply_migrations_resumes :
      (files : List SqlFile) (s t : MigratedDb D) (e : Error)
      → Distinct (names files)
      → apply_migrations execute files s ≡ (raise e, t)
      → (done : List SqlFile) × (failed : SqlFile) × (rest : List SqlFile) × (unrecorded
            (recorded s)
            (sort_files files)
          ≡ done ++ (failed ∷ rest))
        × (recorded t ≡ recorded s ++ names done)
        × ((execute' : String → D → Result Done × D) (v : MigratedDb D) (applied : List String)
            → apply_migrations execute' files t ≡ (ok applied, v)
            → applied ≡ names (failed ∷ rest))
  unfolding apply_migrations
  apply_migrations_resumes files s t e distinct h =
      let (done, failed, rest, split, grown) =
        apply_files-raised execute (recorded s) (sort_files files) (create_table s).1 t e h in
      let apart : Distinct (names (done ++ (failed ∷ rest))) =
        subst (λ fs. Distinct (names fs)) split
          (unrecorded-Distinct (recorded s) (sort_files files) (sort-Distinct files distinct)) in
      let left : unrecorded (recorded t) (sort_files files) ≡ failed ∷ rest =
        ap (λ z. unrecorded z (sort_files files)) grown
        ∙ unrecorded-append (recorded s) (names done) (sort_files files)
        ∙ ap (unrecorded (names done)) split
        ∙ pending_rest done (failed ∷ rest) apart in
      (
        done,
        failed,
        rest,
        split,
        grown,
        λ execute' v applied k.
            (apply_migrations-returned execute' files t v applied k).0 ∙ ap names left,
      )

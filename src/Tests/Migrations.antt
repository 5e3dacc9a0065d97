-- ===== src/Tests/Migrations.antt =====
-- Sample migrations: a run, a second one, and one that fails on its way.
use sb_poc.Prelude.{
  insert_by, sort_by, String, String_eq, none, some, List, [], ◌∷◌, ◌++◌, ◌≡◌, refl, ◌==◌,
  if◌then◌else◌, Result, ok, raise, database_error,
}
use sb_poc.Hashing.{lex_le}
use sb_poc.Migrate.{
  SqlFile, MigratedDb, Done, recorded, apply_file, apply_files, apply_migrations, sort_files,
}
use sb_poc.Migrate.Files.{names, unrecorded}
use sb_poc.Migrate.Again.{apply_migrations_again}
use sb_poc.Migrate.Resume.{apply_migrations_resumes}

-- A database that keeps the texts that it has executed, and one that refuses a text.
abbrev execute : String → List String → Result Done × List String
execute text log = (ok tt, log ++ (text ∷ []))

abbrev strict : String → List String → Result Done × List String
strict text log = if text == "broken" then (raise database_error, log) else execute text log

abbrev directory : List SqlFile
directory =
    record { name = "003.sql"; text = ok "last" }
    ∷ record { name = "001.sql"; text = ok "first" }
    ∷ record { name = "002.sql"; text = ok "broken" }
    ∷ []

abbrev fresh_db : MigratedDb (List String)
fresh_db = record { tables = []; schema_migrations = none }

abbrev migrated : MigratedDb (List String)
migrated = record {
  tables = "first" ∷ "broken" ∷ "last" ∷ [];
  schema_migrations = some ("001.sql" ∷ "002.sql" ∷ "003.sql" ∷ []);
}

abbrev stopped : MigratedDb (List String)
stopped = record { tables = "first" ∷ []; schema_migrations = some ("001.sql" ∷ []) }

all_applied :
    apply_migrations execute directory fresh_db
    ≡ (ok ("001.sql" ∷ "002.sql" ∷ "003.sql" ∷ []), migrated)
unfolding apply_migrations apply_files apply_file sort_by insert_by lex_le
all_applied = refl

second_fails : apply_migrations strict directory fresh_db ≡ (raise database_error, stopped)
unfolding apply_migrations apply_files apply_file sort_by insert_by lex_le
second_fails = refl

apply_migrations_again_example :
    (t' : MigratedDb (List String)) × (apply_migrations execute directory migrated ≡ (ok [], t'))
    × (t'.tables ≡ migrated.tables)
    × (recorded t' ≡ recorded migrated)
apply_migrations_again_example =
    apply_migrations_again execute directory directory fresh_db migrated
      ("001.sql" ∷ "002.sql" ∷ "003.sql" ∷ []) (λ x e. e) all_applied

apply_migrations_resumes_example :
    (done : List SqlFile) × (failed : SqlFile) × (rest : List SqlFile) × (unrecorded
        (recorded fresh_db)
        (sort_files directory)
      ≡ done ++ (failed ∷ rest))
    × (recorded stopped ≡ recorded fresh_db ++ names done)
    × ((execute' : String → List String → Result Done × List String) (v : MigratedDb (List String))
          (applied : List String)
        → apply_migrations execute' directory stopped ≡ (ok applied, v)
        → applied ≡ names (failed ∷ rest))
apply_migrations_resumes_example =
    apply_migrations_resumes strict directory fresh_db stopped database_error
      (refl, (refl, (refl, tt))) second_fails

-- ===== src/Migrate.antt =====
-- src/pipeline/migrate.py: the migration files of a directory, and the table that records them.
pub mod Files
pub mod Runs
pub mod Again
pub mod Resume
use sb_poc.Prelude.{
  sort_by, String, String_eq, Bool, true, false, ◌||◌, Option, none, some, List, [], ◌∷◌, ◌++◌,
  ◌==◌, if◌then◌else◌, Result, ok, raise, database_error,
}
use sb_poc.Hashing.{key_le}

-- A path of `*.sql`: its name, and what `path.read_text(encoding="utf-8")` gives.
pub record SqlFile : Type 0 where
  pub name : String
  pub text : Result String

-- The tables of the pipeline, and the filenames in `schema_migrations` if that table exists.
pub record MigratedDb (D : Type 0) : Type 0 where
  pub tables : D
  pub schema_migrations : Option (List String)

-- An operation on an autocommit connection: what was done before an exception stays.
abbrev pub Conn : Type 0 → Type 0 → Type 0
Conn D A = MigratedDb D → Result A × MigratedDb D

module _ {D A B : Type 0} where
  abbrev pub after : Result A × MigratedDb D → (A → Conn D B) → Result B × MigratedDb D
  after (raise e, s) next = (raise e, s)
  after (ok a, s) next = next a s

  infixl 5 ◌>>=◌
  abbrev pub ◌>>=◌ : Conn D A → (A → Conn D B) → Conn D B
  (m >>= next) s = after (m s) next

-- `name in names`
abbrev pub in_names : String → List String → Bool
in_names x [] = false
in_names x (y ∷ ys) = y == x || in_names x ys

-- `sorted(...)` of paths in one directory, which compare as their names do
abbrev pub by_name : SqlFile → SqlFile → Bool
by_name f g = key_le f.name g.name

abbrev pub sort_files : List SqlFile → List SqlFile
sort_files files = sort_by by_name files

abbrev pub names_of : Option (List String) → List String
names_of none = []
names_of (some names) = names

abbrev selected : Option (List String) → Result (List String)
selected none = raise database_error
selected (some names) = ok names

-- what a statement without rows gives
abbrev pub Done : Type 0
Done = Unit

module _ {D : Type 0} where
  -- The filenames that are recorded.
  abbrev pub recorded : MigratedDb D → List String
  recorded s = names_of s.schema_migrations

  abbrev pub return : {A : Type 0} → Result A → Conn D A
  return r s = (r, s)

  -- CREATE TABLE IF NOT EXISTS schema_migrations
  abbrev pub create_table : Conn D Done
  create_table s = (ok tt, record s { schema_migrations = some (recorded s) })

  -- SELECT filename FROM schema_migrations
  abbrev pub select_names : Conn D (List String)
  select_names s = (selected s.schema_migrations, s)

  abbrev inserted : String → MigratedDb D → Option (List String) → Result Done × MigratedDb D
  inserted name s none = (raise database_error, s)
  inserted name s (some names) =
      if in_names name names
      then (raise database_error, s)
      else (ok tt, record s { schema_migrations = some (names ++ (name ∷ [])) })

  -- INSERT INTO schema_migrations, whose primary key is the filename
  abbrev pub insert_name : String → Conn D Done
  insert_name name s = inserted name s s.schema_migrations

  module _ (execute : String → D → Result Done × D) where
    -- A text of SQL, which leaves `schema_migrations` alone.
    abbrev pub execute_text : String → Conn D Done
    execute_text text s = let r = execute text s.tables in (r.0, record s { tables = r.1 })

    -- the body of the loop for a file that is not recorded
    unfoldable pub apply_file : SqlFile → Conn D Done
    apply_file file = do text ← return file.text; _ ← execute_text text; insert_name file.name

    -- The loop; it returns the names of the files that it applies.
    unfoldable pub apply_files : List String → List SqlFile → Conn D (List String)
    unfolding apply_file
    apply_files already [] = return (ok [])
    apply_files already (file ∷ files) =
        if in_names file.name already then apply_files already files else (do
          _ ← apply_file file
          applied ← apply_files already files
          return (ok (file.name ∷ applied)))

    -- `files` is the directory as `glob` lists it.
    unfoldable pub apply_migrations : List SqlFile → Conn D (List String)
    unfolding apply_files sort_by
    apply_migrations files = do
      _ ← create_table
      already ← select_names
      apply_files already (sort_files files)

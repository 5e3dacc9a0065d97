-- ===== src/Migrate/Runs.antt =====
-- migrate.py, apply_migrations: the loop on an autocommit connection, whether it returns or raises.
use mathlib.Core.List.{append-nil, append_assoc}
use sb_poc.Prelude.{
  String, String_eq, Option, none, some, List, [], ◌∷◌, ◌++◌, ◌≡◌, refl, ap, sym, ◌∙◌, arith,
  Bool-cases, inl, inr, ◌⊎◌, Result, ok, raise, Error,
}
use sb_poc.Migrate.{
  SqlFile, MigratedDb, Conn, after, ◌>>=◌, Done, in_names, recorded, insert_name, inserted,
  execute_text, apply_file, apply_files, return,
}
use sb_poc.Migrate.Files.{names, unrecorded}

module _ {D A B : Type 0} where
  -- Inversion of a computation that returned.
  pub >>=-returned :
      (m : Conn D A) (next : A → Conn D B) (s t : MigratedDb D) {b : B}
      → (m >>= next) s ≡ (ok b, t)
      → (a : A) × (v : MigratedDb D) × (m s ≡ (ok a, v)) × (next a v ≡ (ok b, t))
  >>=-returned m next s t {b} = invert (m s)
    where
      invert :
          (r : Result A × MigratedDb D)
          → after r next ≡ (ok b, t)
          → (a : A) × (v : MigratedDb D) × (r ≡ (ok a, v)) × (next a v ≡ (ok b, t))
      invert (ok a, v) h = (a, v, refl, h)
      invert (raise e, v) h = absurd (cc)

  -- Inversion of a computation that raised.
  pub >>=-raised :
      (m : Conn D A) (next : A → Conn D B) (s t : MigratedDb D) {e : Error}
      → (m >>= next) s ≡ (raise e, t)
      → (m s ≡ (raise e, t))
        ⊎ ((a : A) × (v : MigratedDb D) × (m s ≡ (ok a, v)) × (next a v ≡ (raise e, t)))
  >>=-raised m next s t {e} = invert (m s)
    where
      invert :
          (r : Result A × MigratedDb D)
          → after r next ≡ (raise e, t)
          → (r ≡ (raise e, t))
            ⊎ ((a : A) × (v : MigratedDb D) × (r ≡ (ok a, v)) × (next a v ≡ (raise e, t)))
      invert (ok a, v) h = inr (a, v, refl, h)
      invert (raise x, v) h = inl (cc)

module _ {D : Type 0} (execute : String → D → Result Done × D) where
  insert_name-returned :
      (name : String) (s t : MigratedDb D) (o : Done)
      → insert_name name s ≡ (ok o, t)
      → recorded t ≡ recorded s ++ (name ∷ [])
  insert_name-returned name s t o = invert s.schema_migrations refl
    where
      invert :
          (x : Option (List String))
          → s.schema_migrations ≡ x
          → inserted name s x ≡ (ok o, t)
          → recorded t ≡ recorded s ++ (name ∷ [])
      invert none e h = absurd (cc)
      invert (some xs) e h = ground (arith, e, h)

  insert_name-raised :
      (name : String) (s t : MigratedDb D) (e : Error)
      → insert_name name s ≡ (raise e, t)
      → recorded t ≡ recorded s
  insert_name-raised name s t e = invert s.schema_migrations
    where
      invert :
          (x : Option (List String)) → inserted name s x ≡ (raise e, t) → recorded t ≡ recorded s
      invert none h = cc
      invert (some xs) h = ground (arith, h)

  pub apply_file-returned :
      (file : SqlFile) (s t : MigratedDb D) (o : Done)
      → apply_file execute file s ≡ (ok o, t)
      → recorded t ≡ recorded s ++ (file.name ∷ [])
  unfolding apply_file
  apply_file-returned file s t o h =
      let (text, v, e, h1) = >>=-returned (return file.text) _ s t h in
      let (u, w, e1, h2) = >>=-returned (execute_text execute text) _ v t h1 in
      insert_name-returned file.name w t o h2 ∙ ap (λ x. x ++ (file.name ∷ [])) (cc)

  pub apply_file-raised :
      (file : SqlFile) (s t : MigratedDb D) (e : Error)
      → apply_file execute file s ≡ (raise e, t)
      → recorded t ≡ recorded s
  unfolding apply_file
  apply_file-raised file s t e h = elim (>>=-raised (return file.text) _ s t h) [
    | inl stop ↦ cc
    | inr (text, v, e1, h1) ↦ elim (>>=-raised (execute_text execute text) _ v t h1) [
      | inl stop ↦ cc
      | inr (u, w, e2, h2) ↦ insert_name-raised file.name w t e h2 ∙ cc
    ]
  ]

  step_returned :
      (file : SqlFile) (xs : List String) (v s t : MigratedDb D)
      → recorded v ≡ recorded s ++ (file.name ∷ [])
      → recorded t ≡ recorded v ++ xs
      → recorded t ≡ recorded s ++ (file.name ∷ xs)
  step_returned file xs v s t h k =
      k ∙ ap (λ x. x ++ xs) h ∙ append_assoc (recorded s) (file.name ∷ []) xs

  -- The file that was applied first, and those that were applied after it.
  one_more :
      (file : SqlFile) (rest expected applied : List String) (s v w t : MigratedDb D)
      → recorded v ≡ recorded s ++ (file.name ∷ [])
      → rest ≡ expected
      → recorded w ≡ recorded v ++ rest
      → return (ok (file.name ∷ rest)) w ≡ (ok applied, t)
      → (applied ≡ file.name ∷ expected) × (recorded t ≡ recorded s ++ applied)
  one_more file rest expected applied s v w t first same grown h =
      let list : file.name ∷ rest ≡ applied = cc in
      let end : recorded w ≡ recorded t = ap recorded {x = w} {y = t} (cc) in
      (
        sym list ∙ ap (◌∷◌ file.name) same,
        sym end ∙ step_returned file rest v s w first grown ∙ ap (λ z. recorded s ++ z) list,
      )

  pub apply_files-returned :
      (already : List String) (files : List SqlFile) (s t : MigratedDb D) (applied : List String)
      → apply_files execute already files s ≡ (ok applied, t)
      → (applied ≡ names (unrecorded already files)) × (recorded t ≡ recorded s ++ applied)
  unfolding apply_files
  apply_files-returned already [] s t applied h = (cc, cc (append-nil (recorded s)))
  apply_files-returned already (file ∷ files) s t applied h =
      elim (Bool-cases (in_names file.name already)) [
        | inl known ↦ rw known (apply_files-returned already files s t applied (rw known at h))
        | inr new ↦
            let (o, v, e, h1) = >>=-returned (apply_file execute file) _ s t (rw new at h) in
            let (rest, w, e1, h2) = >>=-returned (apply_files execute already files) _ v t h1 in
            let (same, grown) = apply_files-returned already files v w rest e1 in
            let first = apply_file-returned file s v o e in
            rw new (
              one_more file rest (names (unrecorded already files)) applied s v w t first same grown
                h2)
      ]

  -- A run that raises has recorded the files before the one that failed.
  pub apply_files-raised :
      (already : List String) (files : List SqlFile) (s t : MigratedDb D) (x : Error)
      → apply_files execute already files s ≡ (raise x, t)
      → (done : List SqlFile) × (failed : SqlFile) × (rest : List SqlFile) × (unrecorded already
            files
          ≡ done ++ (failed ∷ rest))
        × (recorded t ≡ recorded s ++ names done)
  unfolding apply_files
  apply_files-raised already [] s t x h = absurd (cc)
  apply_files-raised already (file ∷ files) s t x h =
      elim (Bool-cases (in_names file.name already)) [
        | inl known ↦ rw known (apply_files-raised already files s t x (rw known at h))
        | inr new ↦ elim (>>=-raised (apply_file execute file) _ s t (rw new at h)) [
          | inl stop ↦ rw new (
            [],
            file,
            unrecorded already files,
            refl,
            apply_file-raised file s t x stop ∙ sym (append-nil (recorded s)),
          )
          | inr (o, v, e, h1) ↦ elim (>>=-raised (apply_files execute already files) _ v t h1) [
            | inr (a, w, e1, h2) ↦ absurd (cc)
            | inl stop ↦
                let (done, failed, rest, same, grown) =
                  apply_files-raised already files v t x stop in
                let first = apply_file-returned file s v o e in
                rw new (
                  file ∷ done,
                  failed,
                  rest,
                  ap (◌∷◌ file) same,
                  step_returned file (names done) v s t first grown,
                )
          ]
        ]
      ]

-- ===== src/Ingest/Counts.antt =====
-- ingest.py, IngestStats: the counts of a run.
use sb_poc.Prelude.{
  ℕ, suc, ◌+◌, String, Bool, true, false, Option, none, some, List, [], ◌∷◌, ◌≡◌, refl, length,
  arith,
}
use sb_poc.Json.{Value}
use sb_poc.Hashing.{Digest}
use sb_poc.Queue.{Key, Queue}
use sb_poc.Ingest.{
  IngestStats, no_files, Load, loaded, unreadable, File, document_key, see, count_newly,
  ingest_document, ingest_checked, ingest_load, ingest_files, ingest_directory,
}

-- Every file that was seen is counted once more.
abbrev pub Balanced : IngestStats → Type 0
Balanced st = st.files_seen ≡ st.parse_errors + st.enqueued + st.already_tracked

module _ {S : Type 0} (d : Digest) (q : Queue S) (store_blob : ℕ → Key → String → Value → S → S)
    (record_dead_letter : Option (String → String → S → S)) where
  count_newly-Balanced :
      (b : Bool) (st : IngestStats)
      → Balanced st
      → Balanced (count_newly b (see st))
        × ((count_newly b (see st)).files_seen ≡ suc st.files_seen)
  count_newly-Balanced true st h = (omega arith, refl)
  count_newly-Balanced false st h = (omega arith, refl)

  ingest_checked-Balanced :
      (now : ℕ) (name : String) (raw : Value) (k : Option Key) (st : IngestStats) (s : S)
      → Balanced st
      → Balanced (ingest_checked d q store_blob record_dead_letter now name raw k (see st) s).0
        × ((ingest_checked d q store_blob record_dead_letter now name raw k (see st) s).0.files_seen
            ≡ suc st.files_seen)
  unfolding ingest_checked ingest_document
  ingest_checked-Balanced now name raw none st s h = (omega arith, refl)
  ingest_checked-Balanced now name raw (some key) st s h = count_newly-Balanced _ st h

  ingest_load-Balanced :
      (now : ℕ) (name : String) (load : Load) (st : IngestStats) (s : S)
      → Balanced st
      → Balanced (ingest_load d q store_blob record_dead_letter now name load (see st) s).0
        × ((ingest_load d q store_blob record_dead_letter now name load (see st) s).0.files_seen
            ≡ suc st.files_seen)
  unfolding ingest_load
  ingest_load-Balanced now name (unreadable error) st s h = (omega arith, refl)
  ingest_load-Balanced now name (loaded raw) st s h =
      ingest_checked-Balanced now name raw (document_key raw) st s h

  ingest_files-Balanced :
      (clock : ℕ → ℕ) (files : List File) (st : IngestStats) (s : S)
      → Balanced st
      → Balanced (ingest_files d q store_blob record_dead_letter clock files st s).0
        × ((ingest_files d q store_blob record_dead_letter clock files st s).0.files_seen
            ≡ st.files_seen + length files)
  unfolding ingest_files
  ingest_files-Balanced clock [] st s h = (h, omega arith)
  ingest_files-Balanced clock (file ∷ files) st s h =
      let r =
        ingest_load d q store_blob record_dead_letter (clock st.files_seen) file.name file.load
          (see st) s in
      let one = ingest_load-Balanced (clock st.files_seen) file.name file.load st s h in
      let rest = ingest_files-Balanced clock files r.0 r.1 one.0 in
      (rest.0, omega (arith, rest.1, one.1))

  -- A run over a directory sees each file once, and counts it exactly once more: as a parse error, as
  -- enqueued or as already tracked.
  pub ingest_directory-Balanced :
      (clock : ℕ → ℕ) (files : List File) (s : S)
      → Balanced (ingest_directory d q store_blob record_dead_letter clock files s).0
        × ((ingest_directory d q store_blob record_dead_letter clock files s).0.files_seen
            ≡ length files)
  unfolding ingest_directory
  ingest_directory-Balanced clock files s =
      let h = ingest_files-Balanced clock files no_files s refl in (h.0, omega (arith, h.1))

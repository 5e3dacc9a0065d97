-- ===== src/Ingest.antt =====
-- src/pipeline/ingest.py, and what `pipeline ingest` of cli.py passes to it: the files of a directory
-- become stored documents and queued jobs.
pub mod Counts
pub mod Documents
pub mod Tracking
pub mod Again
pub mod Edited
use sb_poc.Prelude.{
  ℕ, suc, String, String_eq, Bool, true, false, Option, none, some, List, [], ◌∷◌, put,
  if◌then◌else◌,
}
use sb_poc.Json.{Value}
use sb_poc.Schema.{non_empty_str}
use sb_poc.Hashing.{Digest, content_hash}
use sb_poc.Row.{id_of}
use sb_poc.Queue.{Key, Queue}
use sb_poc.Store.{Database, Store, blob_key, upsert_blob}

pub record IngestStats : Type 0 where
  pub files_seen : ℕ
  pub parse_errors : ℕ
  pub enqueued : ℕ
  pub already_tracked : ℕ

abbrev pub no_files : IngestStats
no_files = record { files_seen = 0; parse_errors = 0; enqueued = 0; already_tracked = 0 }

-- What `json.loads(path.read_text(...))` gives: a value, or the text of one of the three exceptions.
pub data Load : Type 0 where
  loaded : Value → Load
  unreadable : String → Load

pub record File : Type 0 where
  pub name : String
  pub load : Load

abbrev pub with_id : String → Option String → Option Key
with_id tenant none = none
with_id tenant (some conversation) =
    some (record { tenant_id = tenant; conversation_id = conversation })

-- The ids that the two tests of a document let through.
unfoldable pub document_key : Value → Option Key
unfolding non_empty_str
document_key raw = elim (non_empty_str (id_of "tenant_id" raw)) [
  | none ↦ none
  | some tenant ↦ with_id tenant (non_empty_str (id_of "conversation_id" raw))
]

abbrev pub see : IngestStats → IngestStats
see st = record st { files_seen = suc st.files_seen }

abbrev pub count_error : IngestStats → IngestStats
count_error st = record st { parse_errors = suc st.parse_errors }

-- `if newly: stats.enqueued += 1 else: stats.already_tracked += 1`
abbrev pub count_newly : Bool → IngestStats → IngestStats
count_newly true st = record st { enqueued = suc st.enqueued }
count_newly false st = record st { already_tracked = suc st.already_tracked }

-- `if record_dead_letter is not None: record_dead_letter(...)`
abbrev pub dead_letter : {S : Type 0} → Option (String → String → S → S) → String → String → S → S
dead_letter none name error s = s
dead_letter (some record_dead_letter) name error s = record_dead_letter name error s

module _ {S : Type 0} (d : Digest) (q : Queue S) (store_blob : ℕ → Key → String → Value → S → S)
    (record_dead_letter : Option (String → String → S → S)) where
  -- A document with its ids is stored and enqueued.
  unfoldable pub ingest_document : ℕ → Value → Key → IngestStats → S → IngestStats × S
  unfolding content_hash blob_key
  ingest_document now raw key st s =
      let r =
        q.enqueue now key (blob_key key) (content_hash d raw)
          (store_blob now key (content_hash d raw) raw s) in
      (count_newly r.0 st, r.1)

  -- from the test of the ids on
  unfoldable pub ingest_checked :
      ℕ → String → Value → Option Key → IngestStats → S → IngestStats × S
  unfolding ingest_document
  ingest_checked now name raw none st s = (
    count_error st,
    dead_letter record_dead_letter name "missing or invalid tenant_id/conversation_id" s,
  )
  ingest_checked now name raw (some key) st s = ingest_document now raw key st s

  -- the body of the loop, from the load on
  unfoldable pub ingest_load : ℕ → String → Load → IngestStats → S → IngestStats × S
  unfolding document_key ingest_checked
  ingest_load now name (unreadable error) st s =
      (count_error st, dead_letter record_dead_letter name error s)
  ingest_load now name (loaded raw) st s = ingest_checked now name raw (document_key raw) st s

  -- The loop over the files in sorted order; the clock gives the time of each.
  unfoldable pub ingest_files : (ℕ → ℕ) → List File → IngestStats → S → IngestStats × S
  unfolding ingest_load
  ingest_files clock [] st s = (st, s)
  ingest_files clock (file ∷ files) st s =
      let r = ingest_load (clock st.files_seen) file.name file.load (see st) s in
      ingest_files clock files r.0 r.1

  unfoldable pub ingest_directory : (ℕ → ℕ) → List File → S → IngestStats × S
  unfolding ingest_files
  ingest_directory clock files s = ingest_files clock files no_files s

module _ {F : Type 0} where
  -- INSERT INTO ingest_dead_letters ... ON CONFLICT (filename) DO UPDATE
  abbrev pub insert_dead_letter : String → String → Store F → Store F
  insert_dead_letter name error s = record s { dead_letters = put name error s.dead_letters }

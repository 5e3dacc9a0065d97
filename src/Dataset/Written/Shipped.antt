-- ===== src/Dataset/Written/Shipped.antt =====
-- data/make_dataset.py: the directory `OUT` after the script, whose only input it is.
use sb_poc.Prelude.{
  ◌==◌, none, String, String_eq, true, false, List, [], ◌∷◌, All, some, ◌≡◌, ◌⊎◌, refl, sym, ap,
  ◌∙◌, inl, inr, Bool-cases, lookup, ok, ok-injective, traverse, arith,
}
use sb_poc.Json.{Value}
use sb_poc.Text.{show}
use sb_poc.Hashing.{quote}
use sb_poc.Dataset.{convo, ts, spec_turns}
use sb_poc.Dataset.Samples.Arcs.{
  c_000001, c_000002, c_000003, c_000004, c_000005, c_000006, c_000007, c_000008, c_000009,
  c_000010,
}
use sb_poc.Dataset.Samples.Edges.{
  c_000016, c_000017, c_000018, c_000019, c_000020, c_000021, c_000022, c_000023, c_000024,
  c_000025, c_000026,
}
use sb_poc.Dataset.Samples.Long.{c_000027, c_000028}
use sb_poc.Dataset.Samples.Malformed.{c_000029, c_000030, c_000031, c_000032}
use sb_poc.Dataset.Samples.Docs.{docs}
use sb_poc.Dataset.Written.{
  Files, file_name, file_text, pretty, line_start, next_with, duplicated, duplicate_name,
  write_dataset,
}
use sb_poc.Dataset.Written.Lookups.{fresh, AreNamed, traverse-AreNamed, text_for-fresh}
use sb_poc.Dataset.Written.Again.{written, IsKept, AreWritten, write_dataset_again}

abbrev pub names : List String
names =
    "acme__c-000001.json" ∷ "acme__c-000002.json" ∷ "acme__c-000003.json" ∷ "globex__c-000004.json"
    ∷ "acme__c-000005.json" ∷ "globex__c-000006.json" ∷ "acme__c-000007.json"
    ∷ "globex__c-000008.json" ∷ "acme__c-000009.json" ∷ "globex__c-000010.json"
    ∷ "acme__c-000016.json" ∷ "acme__c-000017.json" ∷ "acme__c-000018.json" ∷ "acme__c-000019.json"
    ∷ "globex__c-000020.json" ∷ "acme__c-000021.json" ∷ "acme__c-000022.json"
    ∷ "globex__c-000023.json" ∷ "globex__c-000024.json" ∷ "globex__c-000025.json"
    ∷ "globex__c-000026.json" ∷ "acme__c-000027.json" ∷ "globex__c-000028.json"
    ∷ "acme__c-000029.json" ∷ "acme__c-000030.json" ∷ "acme__c-000031.json"
    ∷ "globex__c-000032.json" ∷ []

-- The names that the script writes.
abbrev pub shipped : List String
shipped = "acme__c-000002.duplicate.json" ∷ names

-- A document that has no turns.
abbrev pub text_29 : String
text_29 =
    "{\n  \"conversation_id\": \"c-000029\",\n  \"tenant_id\": \"acme\",\n  \"channel\": \"chat\",\n  \"started_at\": \"2026-03-02T09:14:00Z\"\n}\n"

-- A document whose list of turns is empty.
abbrev pub text_18 : String
text_18 =
    "{\n  \"conversation_id\": \"c-000018\",\n  \"tenant_id\": \"acme\",\n  \"channel\": \"chat\",\n  \"started_at\": \"2026-03-02T09:14:00Z\",\n  \"turns\": []\n}\n"

-- A document with two turns.
abbrev pub text_32 : String
text_32 =
    "{\n  \"conversation_id\": \"c-000032\",\n  \"tenant_id\": \"globex\",\n  \"channel\": \"chat\",\n  \"started_at\": \"2026-03-02T09:14:00Z\",\n  \"turns\": [\n    {\n      \"seq\": 0,\n      \"role\": \"bot\",\n      \"ts\": \"2026-03-02T09:14:00Z\",\n      \"text\": \"Hi! I'm the automated assistant. How can I help?\"\n    },\n    {\n      \"seq\": 1,\n      \"role\": \"bot\",\n      \"ts\": \"2026-03-02T09:14:40Z\",\n      \"text\": \"I didn't understand that. Transferring you.\"\n    }\n  ]\n}\n"

-- Each document's text is in the file of its name.
abbrev pub Hold : Files → List Value → List String → Type 0
Hold after [] [] = Unit
Hold after (d ∷ ds) (n ∷ ns) = (lookup n after ≡ some (file_text d)) × Hold after ds ns
Hold after _ _ = ⊥

text_29_lem : file_text c_000029 ≡ text_29
unfolding file_text pretty line_start quote ts show c_000029
text_29_lem = refl

text_18_lem : file_text c_000018 ≡ text_18
unfolding file_text pretty line_start quote ts show c_000018 convo spec_turns
text_18_lem = refl

text_32_lem : file_text c_000032 ≡ text_32
unfolding file_text pretty line_start quote ts show c_000032 convo spec_turns
text_32_lem = refl

fresh-cons :
    (n m : String) (ms : List String)
    → fresh n (m ∷ ms) ≡ true
    → ((m == n) ≡ false) × (fresh n ms ≡ true)
fresh-cons n m ms h = ground (arith, h)

module _ (repr : Value → String) where
  docs_named : traverse (file_name repr) docs ≡ ok names
  unfolding traverse file_name docs convo c_000001 c_000002 c_000003 c_000004 c_000005 c_000006
      c_000007 c_000008 c_000009 c_000010 c_000016 c_000017 c_000018 c_000019 c_000020 c_000021
      c_000022 c_000023 c_000024 c_000025 c_000026 c_000027 c_000028 c_000029 c_000030 c_000031
      c_000032
  docs_named = refl

  found : next_with duplicated docs ≡ ok c_000002
  unfolding next_with docs convo c_000001 c_000002
  found = refl

  kept-Hold :
      (after : Files) (ds : List Value) (ns : List String)
      → AreNamed repr ds ns
      → All (IsKept repr after) ds
      → Hold after ds ns
  kept-Hold after [] [] a k = tt
  kept-Hold after [] (n ∷ ns) a k = absurd a
  kept-Hold after (d ∷ ds) [] a k = absurd a
  kept-Hold after (d ∷ ds) (n ∷ ns) (e, a) ((m, e1, h), k) =
      let same : m ≡ n = ok-injective (sym e1 ∙ e) in
      (ap (λ x. lookup x after) (sym same) ∙ h, kept-Hold after ds ns a k)

  -- What the directory holds after the script: `before` is what it held.
  pub record IsShipped (before after : Files) : Type 0 where
    pub all : Hold after docs names
    pub no_turns : lookup "acme__c-000029.json" after ≡ some text_29
    pub empty_turns : lookup "acme__c-000018.json" after ≡ some text_18
    pub two_turns : lookup "globex__c-000032.json" after ≡ some text_32
    pub copy : lookup "acme__c-000002.duplicate.json" after ≡ lookup "acme__c-000002.json" after
    pub others :
        (name : String) → (fresh name shipped ≡ false) ⊎ (lookup name after ≡ lookup name before)

  unwritten : (name : String) → fresh name shipped ≡ true → written repr docs c_000002 name ≡ none
  unwritten name h =
      let (apart, other) = fresh-cons name duplicate_name names h in
      rw
        (
          apart,
          text_for-fresh repr docs names name (traverse-AreNamed repr docs names docs_named) other,
        )
        refl

  AreWritten-IsShipped :
      (before after : Files) → AreWritten repr docs c_000002 before after → IsShipped before after
  unfolding docs
  AreWritten-IsShipped before after a =
      let hold = kept-Hold after docs names (traverse-AreNamed repr docs names docs_named) a.kept in
      record {
        all = hold;
        no_turns = hold.1.1.1.1.1.1.1.1.1.1.1.1.1.1.1.1.1.1.1.1.1.1.1.0 ∙ ap some text_29_lem;
        empty_turns = hold.1.1.1.1.1.1.1.1.1.1.1.1.0 ∙ ap some text_18_lem;
        two_turns =
            hold.1.1.1.1.1.1.1.1.1.1.1.1.1.1.1.1.1.1.1.1.1.1.1.1.1.1.0 ∙ ap some text_32_lem;
        copy = a.copied ∙ sym (hold.1.0);
        others = λ name. elim (Bool-cases (fresh name shipped)) [
          | inr listed ↦ inl listed
          | inl other ↦ inr (a.others name ∙ rw (unwritten name other) refl)
        ];
      }

  -- Whatever the directory held, the script ends. Each of the 27 sample documents is then in the file
  -- that is named by its tenant and its id; three of these files are spelled out: that of a document
  -- without turns, of one with an empty list of turns, and of one with two turns. The file of the
  -- duplicate has the same text as that of c-000002, and every file of another name is as it was. The
  -- script run again ends too, and every file has the same text as after the first run.
  pub write_dataset-IsShipped :
      (before : Files)
      → (after : Files) × (again : Files) × (write_dataset repr docs before ≡ ok after)
        × IsShipped before after
        × (write_dataset repr docs after ≡ ok again)
        × ((name : String) → lookup name again ≡ lookup name after)
  write_dataset-IsShipped before =
      let (after, again, e, written, e1, same) =
        write_dataset_again repr docs names c_000002 before docs_named refl found in
      (after, again, e, AreWritten-IsShipped before after written, e1, same)

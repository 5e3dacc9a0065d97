-- ===== src/Sentiment.antt =====
-- src/pipeline/sentiment.py: the wrapper of the sentiment model, over any classifier.
pub mod Batches
use sb_poc.Prelude.{
  ℕ, zero, suc, String, ℤ, pos, negsuc, Bool, true, false, ◌&&◌, ◌||◌, Option, none, some, List, [],
  ◌∷◌, map, Table, lookup, put, Eq, String_eq, ℕ_eq, ◌==◌, Result, ok, raise, value_error,
  index_error, key_error, assertion_error, ◌>>=◌, traverse, length, leb, if◌then◌else◌, take, drop,
  get_elem?, set,
}
use sb_poc.Text.{Unicode, codes}
use sb_poc.Float.{Float}
use sb_poc.Config.{Config}
use sb_poc.Metrics.{TurnScore}

-- The tokenizer and the model of `transformers` with the functions of `torch` that are applied to them.
pub record Classifier (F : Type 0) : Type 0 where
  -- `softmax` of the logits for a batch of texts, each cut at a number of tokens
  pub probabilities : ℤ → List String → List (List F)
  pub argmax : List F → ℕ
  -- `model.config.id2label`
  pub id2label : Table ℕ String

unfoldable pub is_emoji : ℕ → Bool
is_emoji c =
    (leb 0x1f300 c && leb c 0x1faff)
    || (leb 0x2600 c && leb c 0x27bf)
    || (leb 0x1f1e6 c && leb c 0x1f1ff)

module _ (u : Unicode) where
  -- `\w`: a letter or digit of any script, or the underscore
  unfoldable pub is_word : ℕ → Bool
  is_word c = u.is_alnum c || c == b'_'

  any_signal : List ℕ → Bool
  unfolding is_word is_emoji
  any_signal [] = false
  any_signal (c ∷ cs) = (is_word c || is_emoji c) || any_signal cs

  unfoldable pub has_scoreable_signal : String → Bool
  unfolding any_signal
  has_scoreable_signal text = any_signal (codes text)

pub record Scorer : Type 0 where
  pub label_by_idx : Table ℕ String
  pub idx_by_label : Table String ℕ

module _ (u : Unicode) where
  unfoldable pub lower_labels : Table ℕ String → Table ℕ String
  unfolding put
  lower_labels [] = []
  lower_labels ((k, v) ∷ t) = (k, u.lower v) ∷ lower_labels t

-- `{v: k for k, v in label_by_idx.items()}`
unfoldable pub invert : Table String ℕ → Table ℕ String → Table String ℕ
unfolding put
invert acc [] = acc
invert acc ((k, v) ∷ t) = invert (put v k acc) t

-- the loop over the labels that are required
unfoldable pub require_labels : List String → Scorer → Result Scorer
unfolding lookup
require_labels [] s = ok s
require_labels (r ∷ rs) s = elim (lookup r s.idx_by_label) [
  | none ↦ raise value_error
  | some _ ↦ require_labels rs s
]

-- `Scorer.__init__`, from the loaded model on
unfoldable pub new_scorer : {F : Type 0} → Unicode → Classifier F → Result Scorer
unfolding lower_labels invert require_labels
new_scorer u m =
    let labels = lower_labels u m.id2label in
    require_labels ("negative" ∷ "neutral" ∷ "positive" ∷ [])
      (record { label_by_idx = labels; idx_by_label = invert [] labels })

abbrev pub or_key_error {ℓ} : {V : Type ℓ} → Option V → Result V
or_key_error none = raise key_error
or_key_error (some v) = ok v

-- `d[key]`, and `row[i]`
abbrev pub item {ℓ κ} : {K : Type ℓ} {V : Type κ} ⦃e : Eq K⦄ → Table K V → K → Result V
item t k = or_key_error (lookup k t)

abbrev pub entry : {F : Type 0} → List F → ℕ → Result F
entry row i = elim (get_elem? row i) [ none ↦ raise index_error | some x ↦ ok x ]

-- The score of a text that is not sent to the model.
abbrev pub unscored : {F : Type 0} → TurnScore F
unscored = record {
  scored = false;
  label = none;
  signed = none;
  confidence = none;
  reason = some "empty_text";
}

module _ (f : Float) (m : Classifier f.F) (s : Scorer) where
  open f use {F, sub}

  -- the body of the loop over the rows
  unfoldable pub score_row : ℕ → ℕ → List F → Result (TurnScore F)
  unfolding lookup
  score_row neg_i pos_i row = do
    let top_idx = m.argmax row
    label ← item s.label_by_idx top_idx
    p ← entry row pos_i
    n ← entry row neg_i
    confidence ← entry row top_idx
    ok (record {
      scored = true;
      label = some label;
      signed = some (sub p n);
      confidence = some confidence;
      reason = none;
    })

  unfoldable pub score_batch : Config F → List String → Result (List (TurnScore F))
  unfolding lookup score_row traverse
  score_batch cfg texts = do
    neg_i ← item s.idx_by_label "negative"
    pos_i ← item s.idx_by_label "positive"
    traverse (score_row neg_i pos_i) (m.probabilities cfg.max_tokens texts)

-- The texts that go to the model, with their positions.
unfoldable pub pending : Unicode → ℕ → List String → List (ℕ × String)
unfolding has_scoreable_signal
pending u i [] = []
pending u i (t ∷ ts) =
    if has_scoreable_signal u t then (i, t) ∷ pending u (suc i) ts else pending u (suc i) ts

module _ {F : Type 0} where
  -- The slots before the model is called: the texts without a signal have theirs.
  unfoldable pub first_slots : Unicode → List String → List (Option (TurnScore F))
  unfolding has_scoreable_signal
  first_slots u [] = []
  first_slots u (t ∷ ts) =
      (if has_scoreable_signal u t then none else some unscored) ∷ first_slots u ts

  -- `for i, score in zip(idx_chunk, scores, strict=True): results[i] = score`
  unfoldable pub fill :
      List (Option (TurnScore F))
      → List (ℕ × String)
      → List (TurnScore F)
      → Result (List (Option (TurnScore F)))
  fill slots [] [] = ok slots
  fill slots [] (r ∷ rs) = raise value_error
  fill slots (p ∷ ps) [] = raise value_error
  fill slots (p ∷ ps) (r ∷ rs) = fill (set slots p.0 (some r)) ps rs

  -- the assertion that every slot was filled, and the filled slots
  unfoldable pub all_filled : List (Option (TurnScore F)) → Result (List (TurnScore F))
  all_filled [] = ok []
  all_filled (none ∷ slots) = raise assertion_error
  all_filled (some r ∷ slots) = do rs ← all_filled slots; ok (r ∷ rs)

module _ {F : Type 0} (batch : List String → Result (List (TurnScore F))) where
  -- The loop over the chunks. Each takes a step of at least one, so the number of texts is enough
  -- fuel, and no fuel is left only when no text is.
  unfoldable pub score_chunks :
      ℕ → ℕ → List (ℕ × String) → List (Option (TurnScore F)) → Result (List (Option (TurnScore F)))
  unfolding fill
  score_chunks zero size todo slots = ok slots
  score_chunks (suc fuel) size [] slots = ok slots
  score_chunks (suc fuel) size (p ∷ ps) slots = do
    let chunk = take size (p ∷ ps)
    scores ← batch (map (λ q. q.1) chunk)
    filled ← fill slots chunk scores
    score_chunks fuel size (drop size (p ∷ ps)) filled

  -- `range(0, n, step)`: a step of 0 raises, and a negative one makes no round.
  unfoldable pub score_range :
      ℤ → List (ℕ × String) → List (Option (TurnScore F)) → Result (List (Option (TurnScore F)))
  unfolding score_chunks
  score_range (pos zero) todo slots = raise value_error
  score_range (pos (suc n)) todo slots = score_chunks (length todo) (suc n) todo slots
  score_range (negsuc n) todo slots = ok slots

-- `batch_size or self._cfg.batch_size`
abbrev pub or_default : Option ℤ → ℤ → ℤ
or_default none d = d
or_default (some (pos zero)) d = d
or_default (some z) d = z

module _ (f : Float) (u : Unicode) (m : Classifier f.F) (s : Scorer) (cfg : Config f.F) where
  open f use {F}

  unfoldable pub score_texts : List String → Option ℤ → Result (List (TurnScore F))
  unfolding score_batch pending first_slots score_range all_filled
  score_texts texts batch_size = do
    filled ←
        score_range (score_batch f m s cfg) (or_default batch_size cfg.batch_size)
          (pending u 0 texts) (first_slots u texts)
    all_filled filled

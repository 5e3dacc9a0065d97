-- ===== src/Sentiment/Batches.antt =====
-- sentiment.py, score_texts: batches of texts against texts one by one.
use mathlib.Core.List.{append_assoc}
use sb_poc.Prelude.{
  ℕ, zero, suc, ◌≤◌, ◌≡◌, refl, sym, ap, ◌∙◌, String, String_eq, pos, Option, none, some, List, [],
  ◌∷◌, ◌++◌, map, arith, Result, ok, ◌>>=◌, traverse, length, length-append, if◌then◌else◌, take,
  drop, take-append-drop, length-drop-le, set, Bool-cases, inl, inr,
}
use sb_poc.Text.{Unicode}
use sb_poc.Float.{Float}
use sb_poc.Config.{Config}
use sb_poc.Metrics.{TurnScore}
use sb_poc.Sentiment.{
  Classifier, Scorer, has_scoreable_signal, unscored, score_row, score_batch, pending, first_slots,
  fill, all_filled, score_chunks, score_range, or_default, score_texts, item,
}

module _ {F : Type 0} (u : Unicode) (score : String → TurnScore F) where
  -- What one text is to get.
  abbrev pub own_score : String → TurnScore F
  own_score t = if has_scoreable_signal u t then score t else unscored

  fill_all : List (Option (TurnScore F)) → List (ℕ × String) → List (Option (TurnScore F))
  fill_all slots [] = slots
  fill_all slots (p ∷ ps) = fill_all (set slots p.0 (some (score p.1))) ps

  fill_all-append :
      (slots : List (Option (TurnScore F))) (ps qs : List (ℕ × String))
      → fill_all slots (ps ++ qs) ≡ fill_all (fill_all slots ps) qs
  unfolding fill_all
  fill_all-append slots [] qs = refl
  fill_all-append slots (p ∷ ps) qs = fill_all-append (set slots p.0 (some (score p.1))) ps qs

  fill-fill_all :
      (slots : List (Option (TurnScore F))) (ps : List (ℕ × String))
      → fill slots ps (map score (map (λ q. q.1) ps)) ≡ ok (fill_all slots ps)
  unfolding fill fill_all
  fill-fill_all slots [] = refl
  fill-fill_all slots (p ∷ ps) = fill-fill_all (set slots p.0 (some (score p.1))) ps

  module _ (batch : List String → Result (List (TurnScore F)))
      (alone : (ts : List String) → batch ts ≡ ok (map score ts)) where
    score_chunks-fill_all :
        (fuel n : ℕ) (todo : List (ℕ × String)) (slots : List (Option (TurnScore F)))
        → length todo ≤ fuel
        → score_chunks batch fuel (suc n) todo slots ≡ ok (fill_all slots todo)
    unfolding score_chunks fill_all
    score_chunks-fill_all zero n [] slots h = refl
    score_chunks-fill_all zero n (p ∷ ps) slots h = absurd (omega arith)
    score_chunks-fill_all (suc fuel) n [] slots h = refl
    score_chunks-fill_all (suc fuel) n (p ∷ ps) slots h =
        let chunk = take (suc n) (p ∷ ps) in
        let rest = drop (suc n) (p ∷ ps) in
        rw (alone (map (λ q. q.1) chunk), fill-fill_all slots chunk)
          (score_chunks-fill_all fuel n rest (fill_all slots chunk)
              (omega (arith, length-drop-le n ps))
            ∙ ap ok (
                sym (fill_all-append slots chunk rest)
                ∙ ap (fill_all slots) (take-append-drop (suc n) (p ∷ ps))))

  set-middle :
      (pre : List (Option (TurnScore F))) (x v : Option (TurnScore F))
      (rest : List (Option (TurnScore F)))
      → set (pre ++ x ∷ rest) (length pre) v ≡ pre ++ v ∷ rest
  set-middle [] x v rest = refl
  set-middle (y ∷ pre) x v rest = ap (◌∷◌ y) (set-middle pre x v rest)

  -- A slot that is filled moves to the part that is done.
  fill_all-shift :
      (pre : List (Option (TurnScore F))) (x : Option (TurnScore F)) (ts : List String)
      → fill_all ((pre ++ x ∷ []) ++ first_slots u ts) (pending u (length (pre ++ x ∷ [])) ts)
        ≡ (pre ++ x ∷ []) ++ map (λ t. some (own_score t)) ts
      → fill_all (pre ++ x ∷ first_slots u ts) (pending u (suc (length pre)) ts)
        ≡ pre ++ x ∷ map (λ t. some (own_score t)) ts
  fill_all-shift pre x ts ih =
      let one_more : length (pre ++ x ∷ []) ≡ suc (length pre) =
        omega (arith, length-append pre (x ∷ [])) in
      cc (
        append_assoc pre (x ∷ []) (first_slots {F = F} u ts),
        append_assoc pre (x ∷ []) (map (λ t. some (own_score t)) ts),
        one_more,
        ih,
      )

  fill_all-pending :
      (pre : List (Option (TurnScore F))) (ts : List String)
      → fill_all (pre ++ first_slots u ts) (pending u (length pre) ts)
        ≡ pre ++ map (λ t. some (own_score t)) ts
  unfolding fill_all first_slots pending
  fill_all-pending pre [] = refl
  fill_all-pending pre (t ∷ ts) = elim (Bool-cases (has_scoreable_signal u t)) [
    | inl e ↦ rw e (
        ap (λ slots. fill_all slots (pending u (suc (length pre)) ts))
          (set-middle pre none (some (score t)) (first_slots u ts))
        ∙ fill_all-shift pre (some (score t)) ts (fill_all-pending (pre ++ some (score t) ∷ []) ts))
    | inr e ↦
        rw e
          (fill_all-shift pre (some unscored) ts (fill_all-pending (pre ++ some unscored ∷ []) ts))
  ]

  all_filled-map :
      (ts : List String) → all_filled (map (λ t. some (own_score t)) ts) ≡ ok (map own_score ts)
  unfolding all_filled
  all_filled-map [] = refl
  all_filled-map (t ∷ ts) = rw (all_filled-map ts)

  module _ (batch : List String → Result (List (TurnScore F)))
      (alone : (ts : List String) → batch ts ≡ ok (map score ts)) where
    score_range-own_score :
        (n : ℕ) (ts : List String)
        → (do
          filled ← score_range batch (pos (suc n)) (pending u 0 ts) (first_slots u ts)
          all_filled filled)
          ≡ ok (map own_score ts)
    unfolding score_range
    score_range-own_score n ts =
        rw
          (
            score_chunks-fill_all batch alone (length (pending u 0 ts)) n (pending u 0 ts)
                (first_slots u ts) (omega arith),
            fill_all-pending [] ts,
          )
          (all_filled-map ts)

traverse-map {ℓ κ μ} :
    {A : Type ℓ} {B : Type κ} {C : Type μ} (g : A → B) (h : B → Result C) (k : A → C)
    → ((a : A) → h (g a) ≡ ok (k a))
    → (xs : List A) → traverse h (map g xs) ≡ ok (map k xs)
unfolding traverse
traverse-map g h k e [] = refl
traverse-map g h k e (x ∷ xs) = rw (e x, traverse-map g h k e xs)

module _ (f : Float) (u : Unicode) (m : Classifier f.F) (s : Scorer) (cfg : Config f.F) where
  open f use {F}

  -- If the model scores each text of a batch by itself, as `row`, and its labels are those that the
  -- wrapper was loaded with, then for every batch size of at least one the scores come back in the
  -- order of the texts, one for each: the model's score for a text with a signal, and the unscored
  -- mark for any other text.
  pub score_texts-own_score :
      (n neg_i pos_i : ℕ) (row : String → List F) (score : String → TurnScore F)
      → or_default none cfg.batch_size ≡ pos (suc n)
      → item s.idx_by_label "negative" ≡ ok neg_i
      → item s.idx_by_label "positive" ≡ ok pos_i
      → ((ts : List String) → m.probabilities cfg.max_tokens ts ≡ map row ts)
      → ((t : String) → score_row f m s neg_i pos_i (row t) ≡ ok (score t))
      → (texts : List String)
      → score_texts f u m s cfg texts none ≡ ok (map (own_score u score) texts)
  unfolding score_texts
  score_texts-own_score n neg_i pos_i row score size has_neg has_pos rows scores texts =
      rw size (score_range-own_score u score (score_batch f m s cfg) alone n texts)
    where
      alone : (ts : List String) → score_batch f m s cfg ts ≡ ok (map score ts)
      alone ts =
          rw (score_batch, has_neg, has_pos, rows ts)
            (traverse-map row (score_row f m s neg_i pos_i) score scores ts)

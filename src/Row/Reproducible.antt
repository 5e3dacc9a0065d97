-- ===== src/Row/Reproducible.antt =====
-- scripts/verify_reproducibility.py, main: the check that two runs of score-file agree.
use sb_poc.Prelude.{
  ℕ, String, Bool, true, Option, List, [], ◌∷◌, ◌≡◌, refl, sym, ap, ◌∙◌, if◌then◌else◌, Result, ok,
  raise, ◌>>=◌, ok-injective,
}
use sb_poc.Json.{Value}
use sb_poc.Text.{Unicode}
use sb_poc.Float.{Float}
use sb_poc.Config.{Config}
use sb_poc.Metrics.{TurnScore}
use sb_poc.Hashing.{Digest}
use sb_poc.Row.{Row, DateTime, score_conversation}
use sb_poc.Row.Status.{without_scored_at, outcome, score_conversation-reproducible}

-- What is printed.
pub data Verdict : Type 0 where
  usage mismatch : Verdict
  -- with the remark that the timestamps match, or without it
  identical : Bool → Verdict

-- `==` on rows as dicts, and on the values of `scored_at`.
pub record RowEquality (F : Type 0) : Type 0 where
  pub same_row : Row F → Row F → Bool
  pub same_time : Option ℕ → Option ℕ → Bool

module _ {F : Type 0} (eq : RowEquality F) (read : String → Result (Row F)) where
  -- From the comparison on.
  unfoldable pub compare_rows : Row F → Row F → Verdict × ℕ
  unfolding without_scored_at
  compare_rows a b =
      if eq.same_row (without_scored_at a) (without_scored_at b)
      then (identical (eq.same_time a.provenance.scored_at b.provenance.scored_at), 0)
      else (mismatch, 1)

  -- `main(argv)`: what is printed and the exit code; `read` opens a file and loads the row in it.
  unfoldable pub verify : List String → Result (Verdict × ℕ)
  unfolding compare_rows
  verify (program ∷ first ∷ second ∷ []) = do a ← read first; b ← read second; ok (compare_rows a b)
  verify argv = ok (usage, 2)

outcome-eq-ok :
    {F : Type 0} (row : Row F) (r : Result (Row F))
    → outcome (ok row) ≡ outcome r
    → (other : Row F) × (r ≡ ok other) × (without_scored_at row ≡ without_scored_at other)
outcome-eq-ok row (ok other) h = (other, refl, ok-injective h)
outcome-eq-ok row (raise e) h = absurd (cc)

module _ (f : Float) (u : Unicode) (d : Digest)
    (score_texts : List String → Result (List (TurnScore f.F))) (cfg : Config f.F)
    (eq : RowEquality f.F) (read : String → Result (Row f.F)) where
  open f use {F}

  -- When two files hold what two runs of `score-file` over the same document, configuration and scorer
  -- return, whenever each takes place, and the first returned a row, the check finds the rows
  -- identical and its exit code is 0, as long as a row is equal to itself.
  pub verify_accepts :
      (t t' : DateTime) (raw : Value) (program first second : String) (row : Row F)
      → ((x : Row F) → eq.same_row x x ≡ true)
      → read first ≡ score_conversation f u d score_texts cfg t raw
      → read second ≡ score_conversation f u d score_texts cfg t' raw
      → score_conversation f u d score_texts cfg t raw ≡ ok row
      → (same_timestamp : Bool) × (verify eq read (program ∷ first ∷ second ∷ [])
          ≡ ok (identical same_timestamp, 0))
  unfolding verify compare_rows
  verify_accepts t t' raw program first second row reflexive h k scored =
      let (other, scored', same) =
        outcome-eq-ok row (score_conversation f u d score_texts cfg t' raw) (
          ap outcome (sym scored)
          ∙ score_conversation-reproducible f u d score_texts cfg t t' raw) in
      (
        eq.same_time row.provenance.scored_at other.provenance.scored_at,
        rw (h, k, scored, scored', same, reflexive (without_scored_at other)) refl,
      )

-- ===== src/Tests/Verdicts.antt =====
-- Two files with the rows of two runs, and the check that they agree.
use sb_poc.Prelude.{
  ◌≡◌, refl, String, String_eq, ◌==◌, ◌&&◌, ℤ, Bool, is_some, if◌then◌else◌, [], ◌∷◌, Result, ok,
  arith, eq_iff,
}
use sb_poc.Float.Integers.{integers}
use sb_poc.Row.{Row, score_conversation}
use sb_poc.Row.Reproducible.{RowEquality, verify, identical, verify_accepts}
use sb_poc.Tests.Samples.{ascii, identity, cfg, noon, score_all, document}
use sb_poc.Tests.Scoring.{one_o_clock}
use sb_poc.Tests.Jobs.{scores_document}

-- A comparison of two of the texts of a row.
abbrev texts_equal : RowEquality ℤ
texts_equal = record {
  same_row = λ a b.
      (a.schema_version == b.schema_version)
      && (a.provenance.model_name == b.provenance.model_name);
  same_time = λ a b. is_some a && is_some b;
}

-- Two files with the rows of two runs.
abbrev printed_row : String → Result (Row ℤ)
printed_row name =
    score_conversation integers ascii identity score_all cfg
      (if name == "run1.json" then noon else one_o_clock) document

verify_accepts_example :
    (same_timestamp : Bool) × (verify texts_equal printed_row
        ("verify_reproducibility.py" ∷ "run1.json" ∷ "run2.json" ∷ [])
      ≡ ok (identical same_timestamp, 0))
verify_accepts_example =
    let (row, scored) = scores_document in
    verify_accepts integers ascii identity score_all cfg texts_equal printed_row noon one_o_clock
      document "verify_reproducibility.py" "run1.json" "run2.json" row
      (λ x. ground (
        arith,
        eq_iff x.schema_version x.schema_version,
        eq_iff x.provenance.model_name x.provenance.model_name,
      ))
      refl refl scored

-- ===== src/Tests/Recoveries.antt =====
-- A worker that takes over a job whose worker stands still.
use sb_poc.Prelude.{
  second, ◌+◌, ◌*◌, ℕ, suc, length, ◌≡◌, refl, String_eq, ℤ, true, some, ok, subst, lookup, arith,
}
use sb_poc.Float.Integers.{integers, integers_laws}
use sb_poc.Row.{Row, DateTime, score_conversation}
use sb_poc.Row.Total.{score_conversation_total}
use sb_poc.Queue.{lease_over, Key, Key_eq, key_beq_iff}
use sb_poc.Queue.Postgres.{view}
use sb_poc.Store.{Blob, get_blob, get_result}
use sb_poc.Worker.Open.{is_closed}
use sb_poc.System.{System, Reach, idle}
use sb_poc.System.Sound.{has_job}
use sb_poc.System.LostUpdate.{about_to_read, about_to_read-Reaches}
use sb_poc.System.Single.{Alone}
use sb_poc.System.Recovery.{LeasesOver, recovers}
use sb_poc.System.Unstuck.Closed.{never_stuck}
use sb_poc.Worker.{store_queue, run}
use sb_poc.Tests.Samples.{
  ascii, identity, plain_db, plain_db-DatabaseLaws, cfg, noon, score_one, score_all,
  score_one-Calibrated, document, key,
}
use sb_poc.Tests.Scoring.{few}
use sb_poc.Tests.Jobs.{scores_document, always}
use sb_poc.Tests.Systems.{the_row, changed, has_key, changed-has_key, differs}

-- The first worker holds the only job, and has not read its document.
abbrev stuck : System integers ascii identity score_all plain_db cfg
stuck =
    about_to_read integers ascii identity score_all plain_db cfg plain_db-DatabaseLaws key document
      changed noon the_row 1 has_key changed-has_key differs refl refl scores_document.1

stuck-Reaches : Reach integers ascii identity score_all plain_db cfg stuck
stuck-Reaches =
    about_to_read-Reaches integers ascii identity score_all plain_db cfg plain_db-DatabaseLaws key
      document changed noon the_row 1 has_key changed-has_key differs refl refl scores_document.1

stuck_blob : (k : Key) (b : Blob) → get_blob k stuck.tables ≡ some b → document ≡ b.raw
unfolding get_blob lookup
stuck_blob k b h = ground (arith, key_beq_iff key k)

stuck_scores :
    (k : Key) (b : Blob) (now : DateTime)
    → get_blob k stuck.tables ≡ some b
    → (row : Row ℤ) × (score_conversation integers ascii identity score_all cfg now b.raw ≡ ok row)
stuck_scores k b now h =
    subst
      (λ c.
        (row : Row ℤ) × (score_conversation integers ascii identity score_all cfg now c ≡ ok row))
      (stuck_blob k b h)
      (score_conversation_total integers ascii identity score_all cfg now score_one (λ xs. refl)
        integers_laws refl refl score_one-Calibrated document few)

-- 400 seconds after the epoch, and a second more for each round
abbrev later : ℕ → ℕ
later round = 400000000 + round * second

stuck_over : LeasesOver 400000000 cfg.lease_seconds stuck.tables
unfolding lookup lease_over
stuck_over k v there h = ground (arith, key_beq_iff key k, there)

recovers_example :
    (total : ℕ) × (z : System integers ascii identity score_all plain_db cfg) × Alone integers ascii
      identity score_all plain_db cfg 2 stuck z
    × (run integers ascii identity score_all plain_db store_queue cfg always later true "w2"
          (suc (length stuck.tables.jobs))
          0
          0
          stuck.tables
        ≡ ok (some total, z.tables))
    × ((k : Key)
        → has_job stuck.tables k ≡ true
        → (is_closed (view k z.tables.jobs) ≡ true)
          × ((row : Row ℤ) × (get_result k z.tables ≡ some row)))
recovers_example =
    recovers integers ascii identity score_all plain_db cfg plain_db-DatabaseLaws stuck-Reaches 2
      always later "w2" 1 400000000 refl stuck_over (λ round. omega arith) stuck_scores

stuck_has_job : has_job stuck.tables key ≡ true
unfolding lookup
stuck_has_job = refl

never_stuck_example :
    (z : System integers ascii identity score_all plain_db cfg) × Alone integers ascii identity
      score_all plain_db cfg 2 stuck z
    × (z.pc 2 ≡ idle)
    × ((k : Key)
        → has_job stuck.tables k ≡ true
        → (is_closed (view k z.tables.jobs) ≡ true)
          × ((row : Row ℤ) × (get_result k z.tables ≡ some row)))
never_stuck_example =
    never_stuck integers ascii identity score_all plain_db cfg plain_db-DatabaseLaws stuck-Reaches 2
      1 refl

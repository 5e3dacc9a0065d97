-- ===== src/Tests/Listings.antt =====
-- Sample results: their summary and their listing, with texts ordered by code points.
use sb_poc.Prelude.{
  insert_by, sort_by, ℕ, String, String_eq, ℤ, true, false, none, [], ◌∷◌, map, ◌≡◌, refl, Table,
  lookup, UniqueKeys,
}
use sb_poc.Config.{metric_params}
use sb_poc.Row.{RowStatus, row_scored, row_rejected}
use sb_poc.Text.{codes}
use sb_poc.Hashing.{lex_le}
use sb_poc.Hashing.{key_le as text_le}
use sb_poc.Hashing.Order.{lex_le_total, lex_le_antisymm, key_le_trans, codes-injective}
use sb_poc.Queue.{Key, Key_eq}
use sb_poc.Store.{Store, StoredResult}
use sb_poc.Cli.{summary, group_counts, cmd_results, count_line, line_of}
use sb_poc.Cli.Sorted.{TotalOrder}
use sb_poc.Cli.Summary.{IsSummary, IsListing, cmd_results_lines}
use sb_poc.Tests.Samples.{cfg, key, other_key, store}

text_le-TotalOrder : TotalOrder text_le
text_le-TotalOrder = record {
  total = λ s t h. lex_le_total (codes s) (codes t) h;
  antisymm = λ s t h h1. codes-injective s t (lex_le_antisymm (codes s) (codes t) h h1);
  trans = key_le_trans;
}

abbrev stored : RowStatus → StoredResult ℤ
stored status = record {
  content_hash = "h";
  status = status;
  overall_sentiment = none;
  sentiment_trajectory = none;
  per_turn = [];
  dropped_turns = [];
  error = none;
  schema_version = "1.0";
  model_name = "model";
  model_revision = "1";
  params = metric_params cfg;
  scored_at = 7;
}

abbrev globex_key : Key
globex_key = record { tenant_id = "Globex"; conversation_id = "c9" }

abbrev rows : Table Key (StoredResult ℤ)
rows =
    (other_key, stored row_scored)
    ∷ (key, stored row_rejected)
    ∷ (globex_key, stored row_scored)
    ∷ []

two_lines : summary text_le rows ≡ ("rejected", 1) ∷ ("scored", 2) ∷ []
unfolding summary sort_by insert_by group_counts lex_le lookup
two_lines = refl

rows-UniqueKeys : UniqueKeys rows
unfolding lookup
rows-UniqueKeys = (refl, (refl, (refl, tt)))

abbrev with_results : Store ℤ
with_results = record store { results = rows }

cmd_results_lines_example :
    ((lines : Table String ℕ) × (cmd_results text_le true with_results
        ≡ map (count_line text_le) lines)
      × IsSummary text_le rows lines)
    × ((lines : Table Key (StoredResult ℤ)) × (cmd_results text_le false with_results
          ≡ map (line_of text_le) lines)
        × IsListing text_le rows lines)
cmd_results_lines_example =
    cmd_results_lines text_le with_results text_le-TotalOrder rows-UniqueKeys

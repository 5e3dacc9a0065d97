-- ===== src/Dataset/Samples/Docs.antt =====
-- data/make_dataset.py: the list `docs`.
use sb_poc.Prelude.{List, [], ◌∷◌}
use sb_poc.Json.{Value}
use sb_poc.Dataset.Samples.Arcs.{
  c_000001, c_000002, c_000003, c_000004, c_000005, c_000006, c_000007, c_000008, c_000009,
  c_000010,
}
use sb_poc.Dataset.Samples.Edges.{
  c_000016, c_000017, c_000018, c_000019, c_000020, c_000021, c_000022, c_000023, c_000024,
  c_000025, c_000026,
}
use sb_poc.Dataset.Samples.Long.{c_000027, c_000028}
use sb_poc.Dataset.Samples.Malformed.{c_000029, c_000030, c_000031, c_000032}

unfoldable pub docs : List Value
docs =
    c_000001 ∷ c_000002 ∷ c_000003 ∷ c_000004 ∷ c_000005 ∷ c_000006 ∷ c_000007 ∷ c_000008 ∷ c_000009
    ∷ c_000010 ∷ c_000016 ∷ c_000017 ∷ c_000018 ∷ c_000019 ∷ c_000020 ∷ c_000021 ∷ c_000022
    ∷ c_000023 ∷ c_000024 ∷ c_000025 ∷ c_000026 ∷ c_000027 ∷ c_000028 ∷ c_000029 ∷ c_000030
    ∷ c_000031 ∷ c_000032 ∷ []

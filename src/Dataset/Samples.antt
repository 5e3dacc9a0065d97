-- ===== src/Dataset/Samples.antt =====
-- data/make_dataset.py: the tenants of the sample conversations.
pub mod Arcs
pub mod Edges
pub mod Long
pub mod Malformed
pub mod Docs
use sb_poc.Prelude.{String}

abbrev pub acme : String
acme = "acme"

abbrev pub globex : String
globex = "globex"

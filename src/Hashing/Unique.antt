-- ===== src/Hashing/Unique.antt =====
-- hashing.py, content_hash: the canonical text determines the document, but for the order of keys.
mod Codes
pub mod Numbers
mod Sorted
pub mod Texts
mod Kinds
mod Fields
pub mod Documents

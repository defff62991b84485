-- ===== src/Json/Sound.antt =====
-- The scanner of sdk/couchbase-core/src/httpx/scanner.rs on any bytes: what they are by the grammar.
pub mod Tails
pub mod Literals
pub mod Numbers
pub mod Values
pub mod Whole

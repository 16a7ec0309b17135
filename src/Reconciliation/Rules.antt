-- ===== src/Reconciliation/Rules.antt =====
-- app/reconciliation/rules.py: the rules that draft exceptions. Each takes `sha256`, the digest of
-- hashlib, for its fingerprints.
pub mod Lines
pub mod Headers
pub mod Quantities
pub mod Prices
pub mod Documents

-- ===== src/Extraction.antt =====
-- app/extraction: the structured candidates that are read from documents, and their checks.
mod Tests
pub mod Normalizer
pub mod Validator

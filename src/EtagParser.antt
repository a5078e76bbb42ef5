-- ===== src/EtagParser.antt =====
-- skills/storageops-data-consistency/scripts/etag_parser.py.
pub mod Classify
pub mod Consistency

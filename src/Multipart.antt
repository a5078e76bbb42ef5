-- ===== src/Multipart.antt =====
-- storageops-data-consistency/scripts/multipart_etag_calculator.py: multipart ETags and the part sizes
-- behind them.
pub mod Division
pub mod PartSize
pub mod Etag
pub mod Run

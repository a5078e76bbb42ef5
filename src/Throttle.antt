-- ===== src/Throttle.antt =====
-- skills/storageops-performance-diagnosis/scripts/throttle_detector.py.
pub mod Signals
pub mod Scan
pub mod Onset

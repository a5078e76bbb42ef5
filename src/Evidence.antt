-- ===== src/Evidence.antt =====
-- storageops-triage/scripts/evidence_completeness_checker.py: is there enough evidence to diagnose.
pub mod Domains
pub mod Check

-- ===== src/Lifecycle.antt =====
-- storageops-lifecycle-cost/scripts/lifecycle_rule_simulator.py, with `_min_billable` of
-- small_object_analyzer.py: the structural cost of lifecycle rules.
pub mod Classes
pub mod Timeline
pub mod Analyze

-- ===== src/PolicyAnalyzer.antt =====
-- storageops-security-iam-policy/scripts/policy_analyzer.py: the risks of the statements of a policy.
pub mod Statement
pub mod Analyze

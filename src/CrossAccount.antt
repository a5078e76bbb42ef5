-- ===== src/CrossAccount.antt =====
-- storageops-security-iam-policy/scripts/cross_account_access_validator.py: which link of a
-- cross-account access chain is broken.
pub mod Glob
pub mod Statement
pub mod Link
pub mod Chain

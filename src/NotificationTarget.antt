-- ===== src/NotificationTarget.antt =====
-- storageops-event-notification/scripts/notification_target_policy_validator.py: whether the policy of
-- a notification's target lets S3 deliver.
pub mod Statement
pub mod Validate

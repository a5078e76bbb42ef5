-- ===== src/NotificationConfig.antt =====
-- storageops-event-notification/scripts/notification_config_analyzer.py: does a rule of a bucket's
-- notification configuration fire for an event on an object.
pub mod Rules
pub mod Analyze

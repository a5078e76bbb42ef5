-- ===== src/Cli.antt =====
-- storageops_cli/__init__.py: the command that installs the tools and starts a session.
pub mod Versions
pub mod World
pub mod Keys
pub mod Settings
pub mod Configure
pub mod Skills
pub mod Install
pub mod Doctor
pub mod Evaluation
pub mod Pi
pub mod Session

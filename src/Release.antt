-- ===== src/Release.antt =====
-- The release tooling: the trials of a comparison, and the qualification of a commit.
pub mod Qualification
pub mod Trials
pub mod Reports

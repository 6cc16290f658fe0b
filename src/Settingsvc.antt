-- ===== src/Settingsvc.antt =====
-- internal/settingsvc: the partial update of a policy.
pub mod Merge

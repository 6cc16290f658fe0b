-- ===== src/Models.antt =====
-- internal/models: the policy schema, schedules and listener specifications.
pub mod Schedule
pub mod Policy
pub mod Settings
pub mod UrlFilter
pub mod Listen

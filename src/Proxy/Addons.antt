-- ===== src/Proxy/Addons.antt =====
-- internal/proxy/addons: the stages of the chain.
pub mod Env
pub mod Management
pub mod Auth
pub mod Control
pub mod Filter
pub mod Logger
pub mod Redirect

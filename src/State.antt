-- ===== src/State.antt =====
-- internal/proxy/state: the engine's shared state and the choice of a policy for a client.
pub mod Match
pub mod Runtime

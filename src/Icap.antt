-- ===== src/Icap.antt =====
-- internal/icap: the adaptation service's message bodies.
pub mod Chunked

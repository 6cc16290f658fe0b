-- ===== src/Tests.antt =====
-- The properties at concrete inputs.
mod Policies
mod Handshakes
mod Values
mod Texts
mod Filters
mod Datagrams

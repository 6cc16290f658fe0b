-- ===== src/Adblock.antt =====
-- internal/adblock: the rules of a filter list, and the decision on a request.
pub mod Rules
pub mod Options
pub mod Parse
pub mod Lines
pub mod Glob
pub mod Context
pub mod Matching
pub mod Index
pub mod Engine
pub mod Cosmetic

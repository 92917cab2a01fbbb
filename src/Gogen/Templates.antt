-- ===== src/Gogen/Templates.antt =====
-- internal/emit/gogen: the texts that the emitter writes around the names and the types.
pub mod Database
pub mod Interface
pub mod Methods

-- ===== src/Gogen.antt =====
-- internal/emit/gogen: the shapes as Go source.
pub mod Names
pub mod Imports
pub mod Types
pub mod Templates
pub mod Times
pub mod Database
pub mod Interface
pub mod Queries
pub mod Files

-- ===== src/Converge.antt =====
-- internal/converge: one dialect's analysis becomes the shapes that an emitter renders.
pub mod Analysis
pub mod Prefix
pub mod Types
pub mod Slices
pub mod Params
pub mod Columns
pub mod Requests

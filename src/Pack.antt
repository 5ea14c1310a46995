-- ===== src/Pack.antt =====
-- internal/pack
pub mod Bytes
pub mod Uuid
pub mod Clean
pub mod Format
pub mod Reader
pub mod Writer
pub mod Spec
mod Slices
mod Fields
mod Lengths

-- ===== src/Domain.antt =====
-- internal/domain
pub mod Status
pub mod Types
pub mod Transitions
pub mod Path
pub mod Lifecycle
pub mod Result

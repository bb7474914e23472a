-- ===== src/Runtime.antt =====
-- The runtime kernel (core/runtime/src/runtime_kernel).
pub mod Models
pub mod Store
pub mod Kernel
pub mod Teardown
pub mod Invariant
pub mod Sound
pub mod Ending
pub mod Operations
pub mod Outcomes
pub mod Window
pub mod Adoption
pub mod Enforcement
pub mod Callbacks

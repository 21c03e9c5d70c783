-- ===== src/Examples.antt =====
-- Concrete prefixes, messages, tables and tasks, and what the library gives for them.
pub mod Fixtures
pub mod Tables
pub mod Frames
pub mod Tasks
pub mod Instances
pub mod Kernels
pub mod Installs
pub mod Commands
pub mod Web
pub mod Wholes

-- ===== src/Tests.antt =====
-- Concrete inputs: the examples of the properties, and small runs of the code.
pub mod Setup
pub mod Tables
pub mod Runs
pub mod Ranked
pub mod Nodes
pub mod Files
pub mod States
pub mod Pings
pub mod Commands
pub mod Located
pub mod Published

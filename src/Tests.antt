-- ===== src/Tests.antt =====
-- Runs of the definitions on concrete inputs, and the theorems applied to them.
pub mod Samples
pub mod Queue
pub mod Fields
pub mod Streams
pub mod Config
pub mod Text
pub mod Render
pub mod Worker
pub mod System
pub mod Create

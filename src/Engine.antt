-- ===== src/Engine.antt =====
-- internal/engine/engine.go: the pipeline of one beacon run.
pub mod Tally
pub mod Pipeline
pub mod Run
pub mod Interleave
pub mod Spans

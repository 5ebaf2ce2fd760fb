-- ===== src/Engine/Executor.antt =====
-- Executor nodes (pkg/engine/executor.go) and the dispatch on the kind of execution.
pub mod Result
pub mod Http
pub mod LocalFunc
pub mod Script
pub mod Queued
pub mod Node

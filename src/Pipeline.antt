-- ===== src/Pipeline.antt =====
-- internal/dataplane/pipeline: the engine that runs plugins at a hook.
pub mod Breaker
pub mod Verdict
pub mod Json
pub mod Patch
pub mod Engine

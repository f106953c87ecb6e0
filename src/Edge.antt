-- ===== src/Edge.antt =====
-- internal/dataplane/edge: who is calling, what the endpoint answers, and the state of a deferred
-- call.
pub mod Identity
pub mod Gateway
pub mod RequestState

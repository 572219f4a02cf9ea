-- ===== src/AgentTimeline.antt =====
-- pi-extension/src/timeline/runtime.ts: the extension's TimelineRuntime, which publishes the messages of
-- a Pi session as timeline events and recovers them from the session.
pub mod Deltas
pub mod Types
pub mod Events
pub mod Runtime
pub mod Recovery
pub mod Partials
pub mod Distinct
pub mod Clock
pub mod Targets
pub mod Equivalence

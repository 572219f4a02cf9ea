-- ===== src/Timeline.antt =====
-- pwa/src/lib/pwa/timeline-runtime.ts: the live state of one session in the web app. A method that
-- mutates the object returns the new state; the identifiers of `randomId` and the clock's readings are
-- arguments, and the strict decoders are parameters. Of a change, the sorted `items` are left out.
pub mod Types
pub mod Pending
pub mod Runtime
pub mod Frames
mod Untouched
pub mod Committed

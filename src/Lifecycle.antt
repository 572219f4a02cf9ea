-- ===== src/Lifecycle.antt =====
-- pi-extension/src/runtime/relay_lifecycle.ts: the connection of the extension to the relay. An
-- `async` method is cut at its `await`s: what runs up to the next one is a function on the state,
-- and what waits is a `Task` in the state's list. The environment chooses the next event: a call, a
-- timer that fires, a relay that closes, or a task that goes on with a resolved or rejected promise.
-- The injected dependencies are recorded in `log`; none of them calls back into the object.
pub mod Types
pub mod Operations
pub mod Tasks
mod Kept
mod Candidates
pub mod SingleFlight
mod Live
mod Rescheduling
pub mod Progress
pub mod Stopped
pub mod Backoff

-- ===== src/SessionState.antt =====
-- pi-extension/src/protocol/v2/session_state.ts: the channels of a session and its idempotency
-- records. A method that mutates the object returns the new state; a throw is `err`, and the state
-- beside it holds what was written before the throw. Every call of `this.clock()` is an argument:
-- `now` is what `prune` reads, `later` what the method reads after it. The SHA-256 fingerprint of a
-- payload, of its canonical JSON text, is a parameter.
pub mod Types
pub mod Records
pub mod Calls
pub mod Preserve
pub mod Invariant
pub mod Owners
pub mod Idempotency
pub mod Eviction

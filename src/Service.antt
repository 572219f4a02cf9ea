-- ===== src/Service.antt =====
-- pi-extension/src/timeline/v2_service.ts: what a session answers to the frames of one owner. A
-- handler is a function of the service, the frame, the answers of the injected callbacks and the
-- clock, and returns the new service, the frames of the answer, and the calls of the callbacks.
pub mod Types
pub mod Records
pub mod Handlers
pub mod Publish
pub mod Delivery

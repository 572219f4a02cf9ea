-- ===== src/Display.antt =====
-- pwa/src/lib/pwa/stream-display-buffer.ts: the buffer that paces how streamed output is displayed.
-- Texts are lists of UTF-16 units; the segmentation into graphemes and `localeCompare` are parameters.
pub mod Types
pub mod Streams
pub mod Buffer
pub mod Draining

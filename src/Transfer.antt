-- ===== src/Transfer.antt =====
-- pwa/src/lib/pwa/timeline-transfer.ts: reassembly of timeline events from fragments, and of a
-- history window from chunks. The strict decoders (protocol-v2/codec.ts over the zod schemas) are the
-- parameter `Codec`; what they throw is `none`.
pub mod Types
pub mod Fragments
pub mod Assembler
mod Counting
pub mod Accounting
pub mod Chunks
pub mod Window
pub mod Checking
pub mod Scoped

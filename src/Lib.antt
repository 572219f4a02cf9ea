-- ===== src/Lib.antt =====
-- Remote Pi: a Pi coding agent that is driven from a phone. pi-extension/ runs inside the agent and
-- connects it to a relay; pwa/ is the web app that shows the timeline of a session. An owner's frame
-- comes through the relay to the extension, TimelineV2Service answers it and remembers requests in
-- V2SessionState, and the web app reassembles, paces and shows what is broadcast.
--
-- pi-extension/src/protocol/v2/session_state.ts: SessionState. V2SessionState is the record State;
--   its methods are create, set_generation, hello, touch, remove_channel (SessionState/Types), and
--   begin, update, get_record, forget, snapshot, prune, remove_owner (SessionState/Records). The
--   service uses them through these names.
-- pi-extension/src/timeline/v2_service.ts: Service. handle and the private handlers are in
--   Service/Handlers, the methods on records and on the generation in Service/Records, publishing in
--   Service/Publish. The callbacks' answers are the record Answers, their calls the list of Effect.
-- pi-extension/src/timeline/history.ts: History. recoverRecords and selectWindow are in
--   History/Window, fragmentWindow and makeChunk in History/Chunking, sync and page in History/Sync.
--   The session manager's answers are the record Host, one for each request.
-- pi-extension/src/timeline/runtime.ts: AgentTimeline. The handlers are in AgentTimeline/Runtime,
--   partials in AgentTimeline/Partials and AgentTimeline/Deltas, recover in AgentTimeline/Recovery, the
--   events of entries in AgentTimeline/Events. References to messages are numbers; the callback of
--   setImmediate is a call of its own, with the session that it finds.
-- Slicing: the loop that cuts an encoded event into fragments, which v2_service.ts and history.ts both
--   have.
-- pi-extension/src/runtime/relay_lifecycle.ts: Lifecycle. The methods of RelayLifecycle are in
--   Lifecycle/Operations, cut at their awaits; Lifecycle/Tasks runs them over events in any order.
-- pi-extension/src/actions/session_new_bridge.ts: Bridge.
-- pwa/src/lib/pwa/timeline-transfer.ts: Transfer. addFragment and finishFragment are in
--   Transfer/Fragments, the assemblers in Transfer/Assembler, Transfer/Chunks and Transfer/Window.
-- pwa/src/lib/pwa/stream-display-buffer.ts: Display. One stream is in Display/Streams, the buffer in
--   Display/Buffer.
-- pwa/src/lib/pwa/timeline-runtime.ts: Timeline. The methods on the scope and on pending
--   messages are in Timeline/Pending, commits in Timeline/Runtime, received frames in Timeline/Frames.
-- pwa/src/lib/pwa/timeline-store.ts: TimelineStore. The table of db.ts is a map by its primary key, in
--   TimelineStore/Database with the transactions on it.
-- pi-extension/src/pairing/qr.ts: Pairing, the class QRSession. Pairing/Steps and Pairing/Owned have
--   the proofs on its calls.
-- pwa/src/lib/pwa/reconnect-state.ts and server-frame-recovery.ts: Reconnect, Reconnect/Recovery.
-- Base has the shared helpers; Base/JsMap is a JavaScript Map, an association list in the order of
-- insertion. Tests applies the theorems to concrete runs.
--
-- Objects that the code mutates are passed as values, and the clock's readings are arguments. Numbers
-- are natural numbers: counters, byte counts and milliseconds, which the code keeps below 2^53. Loops
-- recurse on lists, on an index or on a number of ticks. slice_fragments and chunks_from run on fuel, the
-- length of what they cut, since each piece takes at least one; the client of History/Following on the number of
-- requests, and its theorem says how many are enough.
--
-- Parameters: SHA-256 of a payload's canonical text, the zod schemas and the codec, grapheme
-- segmentation and localeCompare, the clients of the relay, the callbacks of the host. Not modelled:
-- the daemon and its supervisor, the rest of pairing, cryptography, sockets and files,
-- IndexedDB itself, React hooks, the relay server (another language), deployment.
pub mod Base
pub mod SessionState
pub mod Reconnect
pub mod Lifecycle
pub mod Transfer
pub mod Slicing
pub mod History
pub mod AgentTimeline
pub mod TimelineStore
pub mod Pairing
pub mod Display
pub mod Timeline
pub mod Service
pub mod Bridge
mod Tests

-- ===== src/Tests.antt =====
-- Runs at concrete inputs: each theorem of the header applied where its hypotheses hold.
mod SessionStateTests
mod LifecycleTests
mod TransferTests
mod PublishTests
mod HistoryTests
mod AgentTimelineTests
mod TimelineStoreTests
mod PairingTests
mod WindowTests
mod DisplayTests
mod ServiceTests
mod ReconnectTests
mod BridgeTests
mod TimelineTests

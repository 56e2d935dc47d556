-- ===== src/SendFlow.antt =====
-- `send_flow` of src/rtmfp/flow.go: the sending half of a flow.
pub mod State
pub mod Congestion
pub mod Transmit
pub mod Ack
pub mod Inflight
pub mod Acked
pub mod Budget
pub mod Window
pub mod Events
pub mod Fragments

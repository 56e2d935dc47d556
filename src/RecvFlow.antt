-- ===== src/RecvFlow.antt =====
-- `recv_flow` of src/rtmfp/flow.go: the receiving half of a flow, over the interface of its heap.
pub mod State
pub mod Receive
pub mod Message
pub mod Order
pub mod Delivery
pub mod Userdata
pub mod Wire
pub mod Events
pub mod Runs
pub mod Contents
pub mod Alike
pub mod EndToEnd

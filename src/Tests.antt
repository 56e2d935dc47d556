-- ===== src/Tests.antt =====
-- Runs of the models, and the theorems at concrete inputs.
mod Heap
mod Slice
mod Ranges
mod Receives
mod EndToEnd
mod Flows
mod Codecs
mod Handshakes
mod Openings
mod Creations
mod Values
mod Streams
mod Sockets
mod Channels
mod NoisyChannels

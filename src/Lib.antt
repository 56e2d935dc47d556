-- ===== src/Lib.antt =====
-- A model of the RTMFP library in src/rtmfp: the encodings, the acknowledged ranges, the two halves of a
-- flow, the chunks and the packets, the handshake, the keys of a session, and the streams on top.
--
-- How the program works. The handshake asks a far end with an `ihello`, is answered with an `rhello`
-- that brings a cookie, and makes a session, which agrees on keys with the session that the far end
-- makes for the cookie. A packet for a session goes to its channel by the number that it hides. A
-- message given to `send_flow.send` is cut into data chunks, which `try_send` passes to the session as
-- the windows allow. The session writes each as a chunk, in a packet with a check sum, which is
-- encrypted. The other end decrypts the packet, decodes its chunks and calls the session for each,
-- which calls `recv_flow.on_userdata`; that keeps the numbers received, puts the chunks in order and
-- answers by an acknowledgement. `send_flow.on_range_ack` removes what is acknowledged, finds losses
-- and moves the congestion window, and an alarm sends again what stays without an answer.
-- `recv_flow.read_message` joins the chunks of a message, which is a command of a net stream; a
-- bidirectional stream passes on the payloads among them.
--
-- Which file models what:
-- - Prelude: shared names, Boolean tests, lists over the native numbers, 64-bit words, masks of a byte.
-- - Vlu: encode_vlu, decode_vlu and their helpers of src/rtmfp/base.go; Vlu/RoundTrip: the round trip.
-- - Range: Range, MakeRange, RangeIntersect, RangeMerge and the others of src/rtmfp/range.go;
--   Range/Bounds: what they do to the positions that ranges hold.
-- - RangeQueue: the methods of RangeQueue in src/rtmfp/range.go, and RangeQueueIntersect;
--   RangeQueue/Valid: the invariant; Add, Subtract, Canonical, Intersect: the operations.
-- - DataChunk: data_chunk of src/rtmfp/base.go and the settings of src/rtmfp/flow.go. Message: how
--   chunks make up a message, which both halves of a flow share.
-- - SendFlow: send_flow of src/rtmfp/flow.go. State: the fields and small methods. Congestion:
--   update_congestion_wnd. Transmit: send, try_send, send_userdata and on_rtx_alarm. Ack: on_range_ack.
--   Fragments, Budget, Inflight, Acked and Window hold the proofs. Events: sequences of events and what they
--   keep.
-- - ChunkHeap: the interface of data_chunk_heap (src/rtmfp/data_chunk_heap.go). Slice: its methods, and
--   push and pop over container/heap; Sorts and Filled: the proofs.
-- - RecvFlow: recv_flow of src/rtmfp/flow.go, over any such heap. State: the fields, send_ack and
--   read_message. Receive: on_userdata. Order, Userdata, Delivery, Message, Wire and Contents hold the
--   proofs. Events: sequences of events at a flow; Runs, Alike and EndToEnd: the proofs about them.
-- - Buffer: what the decoders use of bytes.Buffer and encoding/binary. Chunk: the calls of
--   chunk_handler; Chunk/Options: options and addresses of src/rtmfp/base.go; Chunk/Decode and Dispatch:
--   src/rtmfp/chunk.go; Chunk/Encode: the bodies of the chunks that src/rtmfp/session.go sends;
--   Chunk/Acks, Chunk/Data and Chunk/Fields: the round trips.
-- - Packet: src/rtmfp/packet.go; Packet/Reads and Framing: the round trip of its text; Packet/Sealed: that
--   of the encrypted packet; Packet/Frames: the loop over its chunks. Prelude/Xor: exclusive or, for the number of a session.
-- - Amf: src/rtmfp/amf.go. Number: U29 numbers and byte arrays; Value: the AMF0 values; NumberTrip,
--   ValueTrip and ObjectTrip: the round trips.
-- - Session: recv_packet_info of src/rtmfp/session.go; Session/Timing: its bounds. Session/Keys: the
--   key exchange of that file; Trips and Agreement: the proofs. Stamps: send_chunk, and the time that the
--   far end measures. Flows: the tables of flows and their handlers; Routes: the proof. Opening: active_open
--   and the packets it takes. Carried: a packet with one chunk between two ends.
-- - Handshake: src/rtmfp/handshake.go, with the passive session of src/rtmfp/transport.go; Opening:
--   create_session of the first file. Calls, Table and Hello: the proofs about the handlers; Answered and
--   Complete: those about the opening of a session; Unanswered: where no answer comes.
-- - NetStream: the messages and replies of src/rtmfp/netstream.go; Trip: their round trip. Opening: how that
--   file and src/rtmfp/bi_stream.go open a stream at both ends; Attach: the proof. BiStream: the passive
--   dispatcher, close and send of the second file; Streams: the proofs. ActiveStream: its active
--   dispatcher; Replies: the proof.
-- - NoisyChan: open, update_send_bucket and recv_packet of src/rtmfp/noisy_chan.go; Sending: its loop send,
--   cut into the steps between which recv can run, and the two loops side by side. Bucket, Counts,
--   Removal, Ledger, Fifo and Signals: the proofs.
-- - Socket: the loop that reads of src/rtmfp/socket_bin.go; Bursts: the proof.
-- - Transport: the settings, the noisy channels and CreateBiStream of src/rtmfp/transport.go; Rounds,
--   Begun and Creating: the proofs, on events that come for a stream.
-- - Tests: runs, a heap that meets the interface, and the theorems at concrete inputs.
--
-- How the code is read. Go's uint is a number with wrap-around at 2 ^ 64 (add64, sub64, mul64). A panic
-- is `none`. A pointer to a state is a state that is passed on; what an object sends is a list in its
-- state. A container/list is a list, and the chunks in it, which the source writes to in place, come
-- back in the list that a loop returns. A function that reads from a bytes.Buffer returns what is left.
--
-- Bounds and fuel. Recursion on fuel is used where a loop takes something in each round: a byte of a
-- buffer (fuel: its length, or one more), a chunk of the heap (fuel: how many there are), a byte of a message
-- (fuel: its length). The loops that send an ihello or an iikeying again run ihello_retry and
-- iikeying_retry_count rounds, as in the source. The ranges of the invariant end below 2 ^ 63, so that the sum of two lengths, which
-- the code computes, does not wrap; sequence numbers start at 1 and do not come near it.
--
-- Parameters: container/heap (the exchanges it makes, and the order it documents), big numbers and
-- HMAC of the key exchange with their laws, random numbers, AES, the string of an address, the size
-- from which an allocation panics, and the product with 1.4142 in floating point.
--
-- What runs at the same time is a sequence of steps: the packets that come in each wait of create_session
-- and active_open are an argument, and the two loops of the noisy channel are steps in any order. A channel
-- of Go is the list of what went to it; the wait at a full channel is left out where it is not said.
--
-- Not modelled: what opens, writes and closes a socket, the goroutines that src/rtmfp/transport.go starts,
-- SHA-256 of a certificate, which decides nothing in this code, printing, and locks elsewhere.
pub mod Prelude
pub mod Vlu
pub mod Range
pub mod RangeQueue
pub mod DataChunk
pub mod SendFlow
pub mod Tests
pub mod ChunkHeap
pub mod RecvFlow
pub mod Message
pub mod Buffer
pub mod Chunk
pub mod Packet
pub mod Session
pub mod Socket
pub mod Transport
pub mod NoisyChan
pub mod NetStream
pub mod Handshake
pub mod Amf

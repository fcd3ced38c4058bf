-- ===== src/Lib.antt =====
-- A model of the core of ngtcp2, a QUIC transport library in C, and what holds of it.
--
-- The program. A connection (lib/ngtcp2_conn.c) reads packets and writes them. lib/ngtcp2_pkt.c
-- turns the bytes of a packet into a header and frames, and back, by means of the integers of
-- lib/ngtcp2_conv.c. What is acknowledged of a stream is tracked as the gaps in it
-- (lib/ngtcp2_gaptr.c), the streams that were opened as the gaps in their numbers
-- (lib/ngtcp2_idtr.c); both hold ranges (lib/ngtcp2_range.c). The packets that are to be
-- acknowledged, and the ACK frames that were sent for them in a ring (lib/ngtcp2_ringbuf.c), are in
-- lib/ngtcp2_acktr.c, and a hash table finds the streams by their numbers (lib/ngtcp2_map.c). A
-- stream (lib/ngtcp2_strm.c) has a reorder buffer (lib/ngtcp2_rob.c), which holds the data that came
-- before what is in front of it. The handler of a STREAM frame checks the frame against the limits of
-- stream IDs and the windows of flow control, makes the stream if the peer opens it, hands the data
-- to the application if it is next in order, with what was waiting behind it, or puts it into the
-- buffer, and closes the stream if it was the last. In
-- the handshake the endpoints exchange transport parameters, which lib/ngtcp2_crypto.c writes and
-- reads; the same file makes the nonce of a packet.
--
-- The files.
--   Base            shared names, Boolean tests, lists measured by native numbers, results
--   Conv            lib/ngtcp2_conv.c: `get_uint16` to `get_uint64`, `get_varint`,
--                   `get_varint_len` and their writers, each under the C name without `ngtcp2_`
--   Pkt/Frame       the frame structures of lib/includes/ngtcp2/ngtcp2.h
--   Pkt/Cursor      the steps that the functions of lib/ngtcp2_pkt.c repeat
--   Pkt/Decode      `ngtcp2_pkt_decode_frame` and the 16 decoders below it
--   Pkt/Encode      `ngtcp2_pkt_encode_frame` and the 16 encoders below it
--   Pkt/Hd          `ngtcp2_pkt_decode_hd`, `ngtcp2_pkt_encode_hd_long` and `_short`
--   Pkt/Special     Version Negotiation and Stateless Reset packets
--   Pkt/Num         `ngtcp2_pkt_adjust_pkt_num`
--   Pkt/AckRange    `ngtcp2_pkt_validate_ack`
--   Pkt/Safety      proofs about the decoders on any payload
--   Pkt/RoundTrip   proofs that the decoders read what the encoders write
--   Track/Range     lib/ngtcp2_range.c
--   Track/Gaptr     lib/ngtcp2_gaptr.c, and the proofs about it
--   Track/Idtr      lib/ngtcp2_idtr.c, and the proofs about it
--   Track/Ringbuf   lib/ngtcp2_ringbuf.c; Mask has the arithmetic of its positions, Refine the
--                   list that it stands for
--   Track/Acktr     lib/ngtcp2_acktr.c: the state, `add`, `forget`, `pop` and `add_ack`; OnAck has
--                   `acktr_on_ack`, RecvAck `ngtcp2_acktr_recv_ack`, the other children the proofs
--   Track/Map       lib/ngtcp2_map.c: the hash table; Table, Resize, Laws and Remove have the proofs
--   Crypto/Nonce    `ngtcp2_crypto_km_new` and `ngtcp2_crypto_create_nonce`
--   Crypto/Params   `ngtcp2_transport_params`; Encode and Decode have the functions that write and
--                   read it, the other children the proofs
--   Strm/State      `ngtcp2_strm` of lib/ngtcp2_strm.c and its flags
--   Strm/Rob        lib/ngtcp2_rob.c: `rob_push`, `rob_remove_prefix`, `rob_data_at`, `rob_pop`;
--                   Chunks says which byte a list of chunks has at an offset, Write is about
--                   `rob_write_data`, Push about the loop of `ngtcp2_rob_push`, Laws about the buffer
--                   as a whole, and Read about what it gives back
--   Conn            lib/ngtcp2_conn.c: the state, the table of the streams, the calls of the
--                   application, and the checks that the handlers share
--   Conn/Close      closing, resetting and shutting down streams
--   Conn/Window     the windows of flow control: what the application gives back, and the handlers
--                   of MAX_DATA and MAX_STREAM_ID frames
--   Conn/Open       `conn_new`, `ngtcp2_conn_client_new` and `_server_new`, and opening streams
--   Conn/Recv       `conn_recv_stream` and the delivery of data that was waiting
--   Conn/Control    the handlers of RST_STREAM, STOP_SENDING, MAX_STREAM_DATA, PING and PONG frames
--   Conn/Keeps      how an invariant passes through the steps of a handler
--   Conn/Flow       the invariant of flow control, and the handlers that keep it; Counts has what a
--                   RST_STREAM frame adds to it
--   Conn/Order      the data of a stream in order: Strms has the invariant, InPlace and Push the two
--                   ways of a frame's data, Frames and Handler the parts of `conn_recv_stream`
--   Conn/Final      a RST_STREAM frame that arrives twice
--   Conn/Gap        frames with FIN before and behind data that is missing
--   Tests, Track/Tests, and Tests below Track/Acktr, Track/Map, Crypto and
--                   Conn: runs on concrete inputs
--
-- How the state corresponds. A pointer into a buffer is the list of the bytes from it to the end of
-- the buffer, so `p += n` drops n bytes, and a difference of pointers is a difference of lengths.
-- What a writer puts into its buffer is the list of the bytes written, and `outlen` or `destlen` a
-- number. A linked list of gaps is the list of their ranges; each loop over it by a pointer to a
-- pointer is a recursion that gives back the list as the loop leaves it, on failure also. A struct
-- is a record, and a pointer with its length one list.
--
-- The connection. An operation takes the connection and gives back the one that it leaves, and what
-- it returns. The hash table of the streams is the list of the streams in it, `find_strm` a search by
-- ID, and a pointer to a stream its ID: what is written through the pointer is written to the stream
-- in the list, and a pointer to a stream that is not there is a fault. `strm0` is the stream 0 of the
-- list. The list of the streams that wait for a MAX_STREAM_DATA frame is the list of their IDs. The
-- bits of `flags` are Booleans. The application is a function from a call to what it returns, and
-- does not call the library; `calls` lists the calls so far. The reorder buffer has its gaps and its
-- chunks as two lists, and a chunk is a list of cells that tells a byte never written from a 0.
--
-- Results. `ok` is a result that is not negative, `err` one of the negative error codes, and `fault`
-- is what C leaves undefined or what stops the program: a read outside the buffer, or an assertion
-- that fails. A `fault` is no value that the C code could return, so a theorem that excludes it says
-- that the code is safe.
--
-- Numbers are natural numbers. A cast to a narrower type is a remainder. `size_t` is 64 bits; its
-- wrap-around is written out where a length that the peer chose is added (`add_size`), and the
-- payload is then taken to be shorter than 2 ^ 63, as any object in memory is; elsewhere the sums
-- are bounded by the size of a buffer. `uint64_t` wraps in `range_len`, in the end of a pushed
-- range, in `gap + 2` and in the subtractions of lib/ngtcp2_acktr.c, and `size_t` in the positions
-- of the ring; the lengths and hashes of the hash table have 32 bits. All loops are structural
-- recursions, but for four. The loops over the versions of a Version Negotiation packet and over the
-- transport parameters are bounded by the length of the input, and each round takes four bytes at
-- least. The loop of `rob_write_data` is bounded by the number of chunks and bytes, and a round
-- passes a chunk or writes bytes. The loop that hands out waiting data is bounded by the number of
-- chunks and two: each round but the last two takes a chunk out. To run out of these bounds is a
-- fault.
--
-- Parameters. `malloc` says whether an allocation for a range succeeds, or what memory a ring gets;
-- `allocated` whether the one allocation of a function succeeds; `Mem` says it for each kind of
-- allocation that the connection makes. Memory that is freed has no trace
-- in the model. Where a decoder fails, what it has already written to the caller's struct has none
-- either.
--
-- Not modelled: of the connection, the writing and the reading of packets with their protection, the
-- handshake, ACK frames and the timers; error tables, the priority queue, retransmission and packet
-- protection; the functions that only release memory, and those that call a function for each entry
-- of the hash table; the wrappers of malloc and memcpy, whose effect is in the lists of their
-- callers; the example programs and the unit tests; and the copy of http-parser below third-party,
-- which only the examples use.
pub mod Base
pub mod Conv
pub mod Pkt
pub mod Crypto
pub mod Track
pub mod Strm
pub mod Conn
pub mod Tests

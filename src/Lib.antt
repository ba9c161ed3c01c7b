-- ===== src/Lib.antt =====
-- A libfabric provider for the A3CUBE network: its message, completion and connection logic.
--
-- The parts, with the files of the repository that they model:
--   * Prelude: Boolean tests, lists, 64-bit arithmetic, and memory with its little-endian words
--     (Prelude/Bytes). Fabric: libfabric's error codes and return values.
--   * Slist (src/list.h): the linked lists of all queues, as pointers in a heap, and in
--     Slist/Threads the threads that insert into one list at once, with its lock. Dlist
--     (src/list.h): the doubly linked lists. Spin (src/locks.h): the condition variable over spin
--     locks, as interleaved steps of threads.
--   * Ring (src/dpa_msg.c, src/dpa_msg.h, src/dpa_msg_cm.h): the message buffer of one direction of
--     a connection, `write_msg`, `read_msg`, `remote_space` and `new_offset`.
--   * Msg (src/dpa_msg.c): `dpa_send`, `dpa_recv`, `try_send`, `try_recv`, the queues of requests and
--     their processing, with the locks. Uses Ring, Cq and Cntr.
--   * Cq (src/dpa_cq.c), Cntr (src/dpa_cntr.c, src/locks.h), Eq (src/dpa_eq.c): completion queues,
--     counters and event queues.
--   * Rma (src/dpa_rma.c): remote reads and writes. RemoteCache (src/dpa_rma.c): the cache of the
--     segment used last, and the interrupt that signals remote data.
--   * Segments (src/dpa_segments.h): making and releasing a local segment. Buffers
--     (src/dpa_msg_cm.c): `get_empty_buffer`, which cuts the message buffers out of segments.
--   * Connect and Peer (src/dpa_msg_cm.c): allocating an endpoint's buffer, the data sent to the
--     peer, connecting to the peer's buffer and disconnecting. Cm (src/dpa_cm.c): listening,
--     connecting, accepting, shutting down and the progress functions; uses Connect and Peer.
--   * Progress (src/dpa_msg.c): the progress functions of an endpoint's queues and the vectored
--     calls. Domain (src/dpa_domain.c): opening a domain.
--   * Endpoint (src/dpa_ep.c), Caps, Requirements and Info (src/dpa_info.c, src/dpa.h): opening and
--     binding endpoints, capabilities, the queries that are refused and the answers to the others.
--   * Provider (src/dpa_fabric.c, src/dpa_env.h, `dpa_mr_init`, `dpa_mr_fini`, `dpa_cm_init`): setting the
--     provider up and ending it. Atomic (src/locks.h): the two implementations of atomic integers.
--   * Av (src/dpa_av.c, src/array.h), Hash (src/hash.h), Mr (src/dpa_mr.c): address vectors, arrays,
--     hash maps, and the memory regions registered in one.
--
-- State is a record, an operation a function that returns the new state with what the code returns.
-- A `uint64_t` or `size_t` is a number with its wrap-around written out (`add64`, `sub64`), an `int`
-- of an atomic counter its bit pattern below 2^32. Memory is a function from addresses to bytes.
-- A call that waits for a lock that is held gives none.
--
-- Loops over a chain of pointers, the wait on a counter and the loop that makes a segment run on
-- fuel. For the chains one more than their length is enough, for the wait one more than the
-- rounds after which its test fails, of which there may be none; the loop that makes a segment has no bound. NUM_SEGMENTS is
-- its default, 1024, in Buffers/Distinct, and what the constants say in Provider; the runs of Spin end
-- before a counter passes 64 bits.
--
-- From a handshake to delivery: in Cm/Exchange, data reaches only the interrupt and the node that it
-- is sent to; in Cm/Link, two endpoints share a buffer only where one has mapped, by node, segment,
-- offset and size, what is the other's own. Cm/Session takes the endpoints that a handshake leaves (Cm) to the
-- two directions of Ring, and Msg/Rounds and Msg/Eventually follow the messages on them. An endpoint
-- is given by two records, `CmEp` with the fields that connecting uses and `Ep` with those that
-- messages use; `opened` passes `connected` from one to the other.
--
-- DPAlib, libfabric and the C library are not in the repository: what their calls answer is an
-- argument. Not modelled are src/enosys.c and src/enosys.h, a copy of a file of libfabric whose
-- functions only return -FI_ENOSYS; the macros for logging and allocation (src/dpa_log.h,
-- src/dpa_utils.h); closing where it only frees memory; barriers; and concurrent access inside one
-- call: but for Spin and Slist/Threads, calls are taken one after another.
pub mod Atomic
pub mod Av
pub mod Buffers
pub mod Caps
pub mod Cm
pub mod Cntr
pub mod Connect
pub mod Cq
pub mod Dlist
pub mod Domain
pub mod Endpoint
pub mod Eq
pub mod Fabric
pub mod Hash
pub mod Info
pub mod Mr
pub mod Msg
pub mod Peer
pub mod Prelude
pub mod Progress
pub mod Provider
pub mod RemoteCache
pub mod Requirements
pub mod Ring
pub mod Rma
pub mod Segments
pub mod Slist
pub mod Spin

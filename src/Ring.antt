-- ===== src/Ring.antt =====
-- src/dpa_msg.c, src/dpa_msg.h and src/dpa_msg_cm.h: the message buffer of one direction of a
-- connection. The sender writes size-prefixed messages into the receiver's buffer, which it
-- maps remotely; the receiver reports how far it has read in a word that the sender can see.
-- Offsets run over twice the buffer size, so that an empty and a full buffer differ.
pub mod Offset
pub mod View
pub mod Write
pub mod Enqueue
pub mod Read
pub mod Dequeue
pub mod Samples
mod Tests
use libfabric_provider_dpa.Prelude.{
  ℕ, ◌+◌, ◌-◌, ◌*◌, ◌/◌, ◌%◌, ◌^◌, Bool, List, ◌++◌, ltb, if◌then◌else◌, min, take, drop, add64,
  sub64, mul64,
}
use libfabric_provider_dpa.Prelude.Bytes.{Mem, store_bytes, load_bytes, zero_bytes, load64, store64}

-- BUFFER_WORD: the offset of `data` in `msg_data`, and also its offset in `buffer_status`.
abbrev pub buffer_word : ℕ
buffer_word = 8

-- The fields of `ep_send_info` that the message buffer uses. `triggered` counts the calls of
-- DPATriggerInterrupt on `remote_interrupt`.
pub record SendInfo : Type 0 where
  pub size : ℕ
  pub write : ℕ
  pub remote_interrupt : Bool
  pub triggered : ℕ

-- The same for `ep_recv_info`; `buffer_size` is `buffer->size`.
pub record RecvInfo : Type 0 where
  pub buffer_size : ℕ
  pub read : ℕ
  pub remote_interrupt : Bool
  pub triggered : ℕ

-- One direction: the receiver's buffer (addresses count from its `data`), and the word
-- `remote_status->read`, which the receiver writes and the sender reads.
pub record Link : Type 0 where
  pub mem : Mem
  pub status : ℕ
  pub send : SendInfo
  pub recv : RecvInfo

-- What a queue entry says of its buffer: the bytes that `buf` points at, and `len`.
pub record Buffer : Type 0 where
  pub buf : List ℕ
  pub len : ℕ

unfoldable pub recv_buffer_size : RecvInfo → ℕ
recv_buffer_size r = sub64 r.buffer_size buffer_word

-- `data_ptr`, as an address in the buffer.
unfoldable pub data_ptr : ℕ → ℕ → ℕ
data_ptr offset buf_size = offset % buf_size

unfoldable pub recv_read_ptr : RecvInfo → ℕ
unfolding data_ptr recv_buffer_size
recv_read_ptr r = data_ptr r.read (recv_buffer_size r)

unfoldable pub send_write_ptr : SendInfo → ℕ
unfolding data_ptr
send_write_ptr s = data_ptr s.write s.size

abbrev pub buffer_word_align : ℕ → ℕ
buffer_word_align n = n / buffer_word * buffer_word

unfoldable pub new_offset : ℕ → ℕ → ℕ → ℕ
new_offset prev_offset msg_size buf_size =
    buffer_word_align ((prev_offset + msg_size + buffer_word + (buffer_word - 1)) % 2 ^ 64)
    % mul64 2 buf_size

unfoldable pub remote_space : Link → ℕ
remote_space l =
    if ltb l.send.write l.status
    then sub64 (sub64 l.status l.send.size) l.send.write
    else sub64 (add64 l.status l.send.size) l.send.write

-- The two memcpy of `write_msg`.
unfoldable pub write_payload : SendInfo → Buffer → Mem → Mem
unfolding send_write_ptr
write_payload s msg mem =
    let recvbuf = send_write_ptr s + buffer_word in
    let buftop_size = sub64 s.size recvbuf in
    let mem1 = store_bytes mem recvbuf (take (min msg.len buftop_size) msg.buf) in
    if ltb buftop_size msg.len
    then store_bytes mem1 0 (take (sub64 msg.len buftop_size) (drop buftop_size msg.buf))
    else mem1

-- The rest of `write_msg`: the offset moves, the length is stored behind a barrier, and the
-- receiver is interrupted if it asked for that.
unfoldable pub publish : Buffer → Link → Link
unfolding send_write_ptr
publish msg l = record l {
  mem = store64 l.mem (send_write_ptr l.send) msg.len;
  send = record l.send {
    write = new_offset l.send.write msg.len l.send.size;
    triggered = if l.send.remote_interrupt then l.send.triggered + 1 else l.send.triggered;
  };
}

unfoldable pub write_msg : Buffer → Link → Link
unfolding publish
write_msg msg l = publish msg (record l { mem = write_payload l.send msg l.mem })

-- `read_msg`: the bytes that it leaves in the user's buffer (their number is its return value),
-- and the link with the buffer cleaned and both copies of the read offset moved.
unfoldable pub read_msg : ℕ → Link → List ℕ × Link
unfolding recv_read_ptr
read_msg recv_size l =
    let n = recv_buffer_size l.recv in
    let read_ptr = recv_read_ptr l.recv in
    let data_addr = read_ptr + buffer_word in
    let buftop_size = sub64 n data_addr in
    let msg_size = load64 l.mem read_ptr in
    let read_size = min recv_size msg_size in
    let copy_size = min read_size buftop_size in
    let top = load_bytes l.mem data_addr copy_size in
    let mem1 = zero_bytes l.mem read_ptr (buffer_word + copy_size) in
    let wraps = ltb copy_size read_size in
    let rest = load_bytes mem1 0 (read_size - copy_size) in
    let read' = new_offset l.recv.read msg_size n in
    (
      if wraps then top ++ rest else top,
      record l {
        mem = if wraps then zero_bytes mem1 0 (read_size - copy_size) else mem1;
        status = read';
        recv = record l.recv {
          read = read';
          triggered = if l.recv.remote_interrupt then l.recv.triggered + 1 else l.recv.triggered;
        };
      },
    )

-- ===== src/Ring/Tests.antt =====
-- Message buffers of three and more words: runs of the code, and the theorems at concrete buffers.
use libfabric_provider_dpa.Prelude.{
  ℕ, ◌+◌, ◌%◌, ◌<◌, ◌≤◌, length, get_or, List, ◌≡◌, refl, [], ◌∷◌, ◌++◌, arith,
}
use libfabric_provider_dpa.Prelude.Bytes.{store64, load64, load_word, le_bytes}
use libfabric_provider_dpa.Ring.{
  write_msg, read_msg, remote_space, new_offset, publish, write_payload, recv_read_ptr, data_ptr,
  recv_buffer_size, send_write_ptr,
}
use libfabric_provider_dpa.Ring.Samples.{nine, one, one-Holds, two, two-Holds, size_one, sends_one}
use libfabric_provider_dpa.Ring.View.{image, wrap, Holds}
use libfabric_provider_dpa.Ring.Offset.{IsRange}
use libfabric_provider_dpa.Ring.Enqueue.{write_msg-Holds}
use libfabric_provider_dpa.Ring.Dequeue.{read_msg-Holds, truncation-not-Holds}

reads_first : (read_msg 4 two).0 ≡ 7 ∷ 8 ∷ []
unfolding read_msg write_msg publish write_payload recv_read_ptr data_ptr recv_buffer_size
    send_write_ptr load64 load_word store64 le_bytes new_offset
reads_first = refl

moves_on : ((read_msg 4 two).1.status ≡ 16) × (two.send.write ≡ 32) × (remote_space two ≡ 16)
unfolding read_msg write_msg publish write_payload recv_read_ptr data_ptr recv_buffer_size
    send_write_ptr load64 load_word store64 le_bytes new_offset remote_space
moves_on = (refl, refl, refl)

write_msg-Holds_example : Holds (write_msg nine one) (((7 ∷ 8 ∷ []) ∷ []) ++ ((9 ∷ []) ∷ []))
write_msg-Holds_example =
    write_msg-Holds one ((7 ∷ 8 ∷ []) ∷ []) nine one-Holds refl (omega (arith, size_one, sends_one))

read_msg-Holds_example : Holds (read_msg 4 two).1 ((9 ∷ []) ∷ [])
read_msg-Holds_example = read_msg-Holds two (7 ∷ 8 ∷ []) ((9 ∷ []) ∷ []) 4 two-Holds (omega arith)

truncation-not-Holds_example :
    let after = (read_msg 1 two).1 in
    ((read_msg 1 two).0 ≡ 7 ∷ [])
    × IsRange two.send.size after.recv.read two.send.write (length (image ((9 ∷ []) ∷ [])))
    × ((i : ℕ)
        → 1 ≤ i
        → i < 2
        → after.mem (wrap two.send.size (two.recv.read % two.send.size + (8 + i)))
          ≡ get_or (7 ∷ 8 ∷ []) i 0)
    × ((q' : List (List ℕ)) → ¬ Holds after q')
truncation-not-Holds_example =
    truncation-not-Holds two (7 ∷ 8 ∷ []) ((9 ∷ []) ∷ []) 1 1 two-Holds (omega arith) (omega arith)
      (omega arith)

-- ===== src/LtDbgCom/Response.antt =====
-- kernel/debug/LtDbgCom.cpp: what SendResponse puts on the line.
use lt_micros.Base.{
  ℕ, ◌+◌, ◌^◌, ◌<◌, ◌≡◌, ap, sym, ◌∙◌, List, ◌++◌, false, not, ◌==◌, length, get_or_default, take,
  take_all, length-append, append_assoc, arith,
}
use lt_micros.Base.Words.{null, add32}
use lt_micros.Base.LittleEndian.{word_bytes}
use lt_micros.Base.Status.{ok}
use lt_micros.LtFsService.Bytes.{bytes_at}
use lt_micros.LtDbgCom.{
  KeDebugResponse, header_size, header_bytes, write_bytes, byte_in, send_packet, send_buffer,
  send_response,
}
use lt_micros.LtDbgCom.Packets.{line, bind_ok, write_bytes_lem, not_both, bytes_at-list}

length-header_bytes :
    (r : KeDebugResponse) → length r.process_name ≡ 512 → length (header_bytes r) ≡ header_size
unfolding header_bytes
length-header_bytes r h = omega (arith, length-append {0} r.process_name (word_bytes r.data_size))

-- What the client gets for a response with data.
abbrev pub response_packet : KeDebugResponse → List ℕ
response_packet r = word_bytes (header_size + r.data_size) ++ (header_bytes r ++ r.block_bytes)

module _ (heap : (call size : ℕ) → ℕ) (behind : ℕ → ℕ) (r : KeDebugResponse) where
  whole_data :
      length r.block_bytes ≡ r.data_size
      → bytes_at (byte_in behind r.block_bytes) 0 r.data_size ≡ r.block_bytes
  whole_data e =
      ap (bytes_at (byte_in behind r.block_bytes) 0) (sym e)
      ∙ bytes_at-list (byte_in behind r.block_bytes) r.block_bytes 0 (λ k lt.
        let nought : 0 + k ≡ k = omega arith in
        rw nought (get_or_default r.block_bytes k (behind k) 0 lt))

  send_packet_lem :
      (bytes incoming out : List ℕ) (size a n : ℕ) (freed : List ℕ)
      → (size == 0) ≡ false
      → send_packet (record { size = size; content = a; bytes = bytes }) (line incoming out n freed)
        ≡ (ok tt, line incoming (out ++ (word_bytes size ++ bytes)) n freed)
  unfolding send_packet
  send_packet_lem bytes incoming out size a n freed sized = rw sized (
      bind_ok (write_bytes (word_bytes size)) (λ u. write_bytes bytes) (line incoming out n freed)
        (write_bytes_lem (word_bytes size) incoming out n freed)
      ∙ write_bytes_lem bytes incoming (out ++ word_bytes size) n freed
      ∙ ap (λ o. (ok tt, line incoming o n freed)) (append_assoc out (word_bytes size) bytes))

  send_buffer_lem :
      (bytes incoming out : List ℕ) (size n : ℕ) (freed : List ℕ)
      → (size == 0) ≡ false
      → (heap n size == null) ≡ false
      → send_buffer heap behind size bytes (line incoming out n freed)
        ≡ (ok tt, line incoming (out ++ (word_bytes size ++ bytes)) (n + 1) freed)
  unfolding send_buffer
  send_buffer_lem bytes incoming out size n freed sized granted =
      rw granted (send_packet_lem bytes incoming out size (heap n size) (n + 1) freed sized)

  whole_packet :
      length r.block_bytes ≡ r.data_size
      → length r.process_name ≡ 512
      → take
          (header_size + r.data_size)
          (header_bytes r ++ bytes_at (byte_in behind r.block_bytes) 0 r.data_size)
        ≡ header_bytes r ++ r.block_bytes
  whole_packet whole named =
      ap (λ d. take (header_size + r.data_size) (header_bytes r ++ d)) (whole_data whole)
      ∙ take_all (header_size + r.data_size) (header_bytes r ++ r.block_bytes) (
          omega
            (arith, length-append {0} (header_bytes r) r.block_bytes, length-header_bytes r named))

  -- SendResponse of a response with data, given memory, puts its header and the data on the line as
  -- one packet, and frees nothing.
  pub send_response_lem :
      (incoming out : List ℕ) (n : ℕ) (freed : List ℕ)
      → (r.block == null) ≡ false
      → length r.block_bytes ≡ r.data_size
      → length r.process_name ≡ 512
      → header_size + r.data_size < 2 ^ 32
      → (heap n (header_size + r.data_size) == null) ≡ false
      → send_response heap behind r (line incoming out n freed)
        ≡ (ok tt, line incoming (out ++ response_packet r) (n + 1) freed)
  unfolding send_response
  send_response_lem incoming out n freed held whole named fits granted =
      let size : add32 header_size r.data_size ≡ header_size + r.data_size = omega arith in
      let sized : (header_size + r.data_size == 0) ≡ false = ground arith in
      not_both (not (r.data_size == 0)) (r.block == null) _ _ _ held
      ∙ ap
          (λ k.
            send_buffer heap behind k
              (take k (header_bytes r ++ bytes_at (byte_in behind r.block_bytes) 0 r.data_size))
              (line incoming out n freed))
          size
      ∙ ap
          (λ bs. send_buffer heap behind (header_size + r.data_size) bs (line incoming out n freed))
          (whole_packet whole named)
      ∙ send_buffer_lem (header_bytes r ++ r.block_bytes) incoming out (header_size + r.data_size) n
          freed sized granted

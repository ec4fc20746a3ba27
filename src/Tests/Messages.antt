-- ===== src/Tests/Messages.antt =====
-- The IPC buffer at concrete inputs.
use lt_micros.Base.{ℕ, ◌≡◌, refl, inr, some, [], ◌∷◌, ◌++◌, true, arith}
use lt_micros.Base.Status.{ok}
use lt_micros.IpcBuffer.{IpcBuffer, add_bytes, read_bytes}
use lt_micros.IpcBuffer.Queue.{IsQueue, segment, add_bytes-IsQueue}
use lt_micros.IpcBuffer.Reading.{read_bytes-IsQueue}
use lt_micros.IpcBuffer.Stale.{IsCrossing, read_bytes_crosses}

-- A memory with the offset of each byte in it.
abbrev memory : ℕ → ℕ → ℕ
memory page i = i

-- Page 5 with the bytes 0 to 3, of which 0 was read.
abbrev waiting : IpcBuffer
waiting = record {
  pages = 5 ∷ [];
  write_page = some 5;
  write_ptr = 4;
  read_page = some 5;
  read_in = 5;
  read_ptr = 1;
  read_limit = 4;
  memory = memory;
  next_page = 6;
  supply = 2;
  ready_to_read = true;
}

waiting-IsQueue : IsQueue 5 waiting (1 ∷ 2 ∷ 3 ∷ [])
unfolding segment
waiting-IsQueue = record {
  offset = 1;
  count = 3;
  pages = refl;
  writes = refl;
  reads = inr (refl, refl, refl, refl);
  extent = refl;
  fits = omega arith;
  unread = refl;
}

add_bytes-IsQueue_example :
    (after : IpcBuffer) × ((add_bytes (some (9 ∷ [])) waiting ≡ (ok tt, after))
      × IsQueue 5 after (1 ∷ 2 ∷ 3 ∷ 9 ∷ [])
      × (after.ready_to_read ≡ true))
add_bytes-IsQueue_example =
    add_bytes-IsQueue 5 (9 ∷ []) waiting (1 ∷ 2 ∷ 3 ∷ []) waiting-IsQueue (omega arith)
      (omega arith)

read_bytes-IsQueue_example :
    (after : IpcBuffer) × ((read_bytes 2 waiting ≡ ok (1 ∷ 2 ∷ [], after))
      × IsQueue 5 after (3 ∷ []))
read_bytes-IsQueue_example =
    read_bytes-IsQueue 5 2 waiting (1 ∷ 2 ∷ 3 ∷ []) waiting-IsQueue (omega arith)

-- Two bytes are left in page 5, and one byte was written to page 6.
abbrev crossing : IpcBuffer
crossing = record waiting {
  pages = 5 ∷ 6 ∷ [];
  write_page = some 6;
  write_ptr = 1;
  read_ptr = 4094;
  read_limit = 4096;
  next_page = 7;
}

-- Three bytes were left to read, and six are answered.
read_bytes_crosses_example :
    (after : IpcBuffer) × ((read_bytes 6 crossing
        ≡ ok (segment memory 5 4094 2 ++ segment memory 6 0 4, after))
      × (after.pages ≡ 6 ∷ [])
      × (after.read_page ≡ some 5)
      × (after.write_ptr ≡ 1))
read_bytes_crosses_example =
    read_bytes_crosses 5 6 4 crossing crossing-IsCrossing (omega arith) (omega arith)
  where
    crossing-IsCrossing : IsCrossing 5 6 crossing
    crossing-IsCrossing = record {
      pages = refl;
      writes = refl;
      reads = refl;
      inside = refl;
      differ = omega arith;
      limit = refl;
      below = omega arith;
    }

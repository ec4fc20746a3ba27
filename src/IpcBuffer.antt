-- ===== src/IpcBuffer.antt =====
-- kernel/task/Ipc/IpcBuffer.hpp and IpcBuffer.cpp: the bytes that wait for the server of an IPC
-- object, over pages of the page pool. A page is a number; a pointer into a page is the page with an
-- offset. currentPageWrite and currentPageWritePtr are null together, as are currentPageRead and
-- currentPageReadPtr, so a missing page stands for both; currentWriteLimit is the end of the page. How many more pages AllocatePage gets is part
-- of the state, and what a new page holds is whatever `memory` says. Of ReadyToReadEvent only the
-- flag is modelled, not the thread that waits for it.
pub mod Queue
pub mod Reading
pub mod Stale
use lt_micros.Base.{
  ℕ, zero, suc, ◌+◌, Option, none, some, List, [], ◌∷◌, ◌++◌, Bool, true, false, if◌then◌else◌,
  ◌==◌, ltb, length,
}
use lt_micros.Base.Words.{page_size}
use lt_micros.Base.Status.{
  KeStatus, alloc_failed, null_parameter, invalid_parameter, Run, ok, err, fault, running, ◌>>=◌,
}

pub record IpcBuffer : Type 0 where
  pub pages : List ℕ
  pub write_page : Option ℕ
  pub write_ptr : ℕ
  pub read_page : Option ℕ
  -- The page that currentPageReadPtr points into, and the offsets of it and of currentReadLimit.
  pub read_in : ℕ
  pub read_ptr : ℕ
  pub read_limit : ℕ
  pub memory : ℕ → ℕ → ℕ
  pub next_page : ℕ
  pub supply : ℕ
  pub ready_to_read : Bool

-- Init
unfoldable pub init : (memory : ℕ → ℕ → ℕ) (next_page supply : ℕ) → IpcBuffer
init memory next_page supply = record {
  pages = [];
  write_page = none;
  write_ptr = 0;
  read_page = none;
  read_in = 0;
  read_ptr = 0;
  read_limit = 0;
  memory = memory;
  next_page = next_page;
  supply = supply;
  ready_to_read = false;
}

-- Equality of two pointers to pages.
unfoldable pub same_page : Option ℕ → Option ℕ → Bool
same_page none none = true
same_page none (some q) = false
same_page (some p) none = false
same_page (some p) (some q) = p == q

unfoldable pub take_page : ℕ → IpcBuffer → Run IpcBuffer
take_page zero b = err alloc_failed
take_page (suc left) b = ok (record b {
  pages = b.pages ++ b.next_page ∷ [];
  write_page = some b.next_page;
  write_ptr = 0;
  next_page = b.next_page + 1;
  supply = left;
})

-- AllocateWritePage
unfoldable pub allocate_write_page : IpcBuffer → Run IpcBuffer
unfolding take_page
allocate_write_page b = take_page b.supply b

-- `*p = c`
unfoldable pub store : (ℕ → ℕ → ℕ) → ℕ → ℕ → ℕ → ℕ → ℕ → ℕ
store memory page offset c q i =
    if q == page then if i == offset then c else memory q i else memory q i

unfoldable pub write_in : ℕ → ℕ → IpcBuffer → IpcBuffer
unfolding store same_page
write_in page c b = record b {
  memory = store b.memory page b.write_ptr c;
  write_ptr = b.write_ptr + 1;
  read_limit = if same_page b.write_page b.read_page then b.read_limit + 1 else b.read_limit;
}

-- The body of the inner loop of AddBytes.
unfoldable pub write_byte : ℕ → IpcBuffer → Run IpcBuffer
unfolding write_in
write_byte c b = elim b.write_page [ none ↦ fault | some page ↦ ok (write_in page c b) ]

-- The two loops of AddBytes, byte by byte: a new page when the current one is full, which then has
-- room. On a failure the bytes in front are in the buffer.
unfoldable pub add_loop : List ℕ → IpcBuffer → Run (Unit {0}) × IpcBuffer
unfolding write_byte allocate_write_page
add_loop [] b = (ok tt, b)
add_loop (c ∷ cs) b =
    let written =
      if ltb b.write_ptr page_size
      then write_byte c b
      else allocate_write_page b >>= λ fresh. write_byte c fresh in
    elim written [
      | ok next ↦ add_loop cs next
      | err e ↦ (err e, b)
      | fault ↦ (fault, b)
      | running ↦ (running, b)
    ]

unfoldable pub signal : Run (Unit {0}) × IpcBuffer → Run (Unit {0}) × IpcBuffer
signal (ok u, b) = (ok u, record b { ready_to_read = true })
signal (err e, b) = (err e, b)
signal (fault, b) = (fault, b)
signal (running, b) = (running, b)

unfoldable pub first_page : Run IpcBuffer → List ℕ → IpcBuffer → Run (Unit {0}) × IpcBuffer
unfolding signal add_loop
first_page (ok fresh) message b = signal (add_loop message fresh)
first_page (err e) message b = (err e, b)
first_page fault message b = (fault, b)
first_page running message b = (running, b)

-- AddBytes; `none` is a null message, and the size is the number of its bytes.
unfoldable pub add_bytes : Option (List ℕ) → IpcBuffer → Run (Unit {0}) × IpcBuffer
unfolding first_page signal add_loop allocate_write_page
add_bytes none b = (err null_parameter, b)
add_bytes (some message) b =
    if length message == 0 then (err invalid_parameter, b) else elim b.write_page [
      | none ↦ first_page (allocate_write_page b) message b
      | some page ↦ signal (add_loop message b)
    ]

-- The first read of ReadBytes: the pointers are set to the oldest page.
unfoldable pub start_reading : IpcBuffer → Run IpcBuffer
unfolding same_page
start_reading b = elim b.read_page [
  | some page ↦ ok b
  | none ↦ elim b.pages [
    | [] ↦ fault
    | page ∷ pages ↦ ok (record b {
      read_page = some page;
      read_in = page;
      read_ptr = 0;
      read_limit = if same_page (some page) b.write_page then b.write_ptr else page_size;
    })
  ]
]

-- The oldest page is released, and the pointer set to the next one; currentPageRead stays.
unfoldable pub turn_page : IpcBuffer → Run IpcBuffer
turn_page b = elim b.pages [
  | [] ↦ fault
  | oldest ∷ rest ↦ elim rest [
    | [] ↦ fault
    | page ∷ pages ↦ ok (record b {
      pages = page ∷ pages;
      supply = b.supply + 1;
      read_in = page;
      read_ptr = 0;
      read_limit = page_size;
    })
  ]
]

-- The bytes of the caller's buffer, the one at the pointer in front.
unfoldable pub read_byte : IpcBuffer → Run (List ℕ × IpcBuffer) → Run (List ℕ × IpcBuffer)
read_byte b rest = rest >>= λ (bytes, after). ok (b.memory b.read_in b.read_ptr ∷ bytes, after)

-- The two loops of ReadBytes, byte by byte: at the limit the next page, unless the page to read is
-- the page to write.
unfoldable pub read_loop : ℕ → IpcBuffer → Run (List ℕ × IpcBuffer)
unfolding read_byte turn_page same_page
read_loop zero b = ok ([], b)
read_loop (suc n) b =
    let on =
      λ (s : IpcBuffer). read_byte s (read_loop n (record s { read_ptr = s.read_ptr + 1 })) in
    if ltb b.read_ptr b.read_limit
    then on b
    else if same_page b.write_page b.read_page
    then ok ([], b)
    else turn_page b >>= on

-- ReadBytes with buffers that are not null; bytesRead is the number of bytes in the answer.
unfoldable pub read_bytes : ℕ → IpcBuffer → Run (List ℕ × IpcBuffer)
unfolding read_loop start_reading
read_bytes n b =
    if n == 0 then err invalid_parameter else start_reading b >>= λ started. read_loop n started

-- ===== src/IpcBuffer/Queue.antt =====
-- While one page holds all that was written, the buffer is a queue of bytes. AddBytes.
use mathlib.Core.Path.{subst}
use lt_micros.Base.{
  ℕ, zero, suc, ◌+◌, ◌-◌, ◌≤◌, ◌<◌, ◌≡◌, refl, ap, sym, ◌⊎◌, inl, inr, none, some, List, [], ◌∷◌,
  ◌++◌, true, arith, length, ==_refl,
}
use lt_micros.Base.Words.{page_size}
use lt_micros.Base.Status.{ok}
use lt_micros.IpcBuffer.{
  IpcBuffer, same_page, store, write_byte, write_in, add_loop, first_page, signal, add_bytes,
  allocate_write_page, take_page,
}

-- The `n` bytes of a page from offset `i` on.
unfoldable pub segment : (ℕ → ℕ → ℕ) → ℕ → ℕ → ℕ → List ℕ
segment memory page i zero = []
segment memory page i (suc n) = memory page i ∷ segment memory page (i + 1) n

-- A byte stored behind a segment lengthens it.
segment-store :
    (memory : ℕ → ℕ → ℕ) (page c i n j : ℕ)
    → j ≡ i + n
    → segment (store memory page j c) page i (n + 1) ≡ segment memory page i n ++ c ∷ []
unfolding segment store
segment-store memory page c i zero j e = ground arith
segment-store memory page c i (suc n) j e =
    ground (arith, segment-store memory page c (i + 1) n j (omega arith))

-- The reading pointers: not set yet, or in the page.
abbrev pub Reading : ℕ → ℕ → IpcBuffer → Type 0
Reading p offset b =
    (b.read_page ≡ some p) × (b.read_in ≡ p) × (b.read_ptr ≡ offset) × (b.read_limit ≡ b.write_ptr)

-- The buffer has the one page `p`, and `xs` are the bytes that were written and not yet read.
pub record IsQueue (p : ℕ) (b : IpcBuffer) (xs : List ℕ) : Type 0 where
  pub offset : ℕ
  pub count : ℕ
  pub pages : b.pages ≡ p ∷ []
  pub writes : b.write_page ≡ some p
  pub reads : ((b.read_page ≡ none) × (offset ≡ 0)) ⊎ Reading p offset b
  pub extent : b.write_ptr ≡ offset + count
  pub fits : b.write_ptr ≤ page_size
  pub unread : xs ≡ segment b.memory p offset count

pub same_page_self : (p : ℕ) → same_page (some p) (some p) ≡ true
unfolding same_page
same_page_self p = ==_refl p

write_byte-IsQueue :
    (p c : ℕ) (b : IpcBuffer) (xs : List ℕ)
    → IsQueue p b xs
    → b.write_ptr < page_size
    → (write_byte c b ≡ ok (write_in p c b)) × IsQueue p (write_in p c b) (xs ++ c ∷ [])
unfolding write_byte write_in same_page
write_byte-IsQueue p c b xs q room = (
  rw q.writes refl,
  record {
    offset = q.offset;
    count = q.count + 1;
    pages = q.pages;
    writes = q.writes;
    reads = elim q.reads [
      | inl r ↦ inl r
      | inr (r, i, o, l) ↦ inr (r, i, o, ground (arith, q.writes, r, same_page_self p))
    ];
    extent = omega (arith, q.extent);
    fits = omega (arith, room);
    unread = rw q.unread (sym (segment-store b.memory p c q.offset q.count b.write_ptr q.extent));
  },
)

-- AddBytes within the page.
record Added (p : ℕ) (message : List ℕ) (b : IpcBuffer) (xs : List ℕ) : Type 0 where
  after : IpcBuffer
  returns : add_loop message b ≡ (ok tt, after)
  queue : IsQueue p after (xs ++ message)

pub append_nil : (xs : List ℕ) → xs ++ [] ≡ xs
append_nil [] = refl
append_nil (x ∷ xs) = ap (◌∷◌ x) (append_nil xs)

append_one : (xs ys : List ℕ) (c : ℕ) → (xs ++ c ∷ []) ++ ys ≡ xs ++ c ∷ ys
append_one [] ys c = refl
append_one (x ∷ xs) ys c = ap (◌∷◌ x) (append_one xs ys c)

add_loop-Added :
    (p : ℕ) (message : List ℕ) (b : IpcBuffer) (xs : List ℕ)
    → IsQueue p b xs
    → b.write_ptr + length message ≤ page_size
    → Added p message b xs
unfolding add_loop write_in
add_loop-Added p [] b xs q room = record { after = b; returns = refl; queue = rw (append_nil xs) q }
add_loop-Added p (c ∷ cs) b xs q room =
    let w = write_byte-IsQueue p c b xs q (omega arith) in
    let a = add_loop-Added p cs (write_in p c b) (xs ++ c ∷ []) w.1 (omega arith) in
    record {
      after = a.after;
      returns = ground (arith, w.0, a.returns);
      queue = subst (IsQueue p a.after) (append_one xs cs c) a.queue;
    }

-- The buffer after EventSignal.
abbrev ready : IpcBuffer → IpcBuffer
ready b = record b { ready_to_read = true }

IsQueue-ready : (p : ℕ) (b : IpcBuffer) (xs : List ℕ) → IsQueue p b xs → IsQueue p (ready b) xs
IsQueue-ready p b xs q = record {
  offset = q.offset;
  count = q.count;
  pages = q.pages;
  writes = q.writes;
  reads = q.reads;
  extent = q.extent;
  fits = q.fits;
  unread = q.unread;
}

-- AddBytes on a buffer with one page, with a message that the page has room for, succeeds: the
-- message is behind the bytes that wait, and the buffer is ready to be read.
pub add_bytes-IsQueue :
    (p : ℕ) (message : List ℕ) (b : IpcBuffer) (xs : List ℕ)
    → IsQueue p b xs
    → 0 < length message
    → b.write_ptr + length message ≤ page_size
    → (after : IpcBuffer) × ((add_bytes (some message) b ≡ (ok tt, after))
        × IsQueue p after (xs ++ message)
        × (after.ready_to_read ≡ true))
unfolding add_bytes signal
add_bytes-IsQueue p message b xs q some_bytes room =
    let a = add_loop-Added p message b xs q room in
    (
      ready a.after,
      (ground (arith, q.writes, a.returns), IsQueue-ready p a.after (xs ++ message) a.queue, refl),
    )

-- The buffer with a new page, and `left` more in the pool.
abbrev paged : ℕ → IpcBuffer → IpcBuffer
paged left b = record b {
  pages = b.pages ++ b.next_page ∷ [];
  write_page = some b.next_page;
  write_ptr = 0;
  next_page = b.next_page + 1;
  supply = left;
}

take_page_some : (n : ℕ) (b : IpcBuffer) → 0 < n → take_page n b ≡ ok (paged (n - 1) b)
unfolding take_page
take_page_some zero b h = absurd (omega arith)
take_page_some (suc n) b h = let e : n ≡ suc n - 1 = omega arith in ap (λ left. ok (paged left b)) e

-- AddBytes on a buffer without pages takes one, and a message of at most a page is what waits.
pub add_bytes_first :
    (message : List ℕ) (b : IpcBuffer)
    → b.pages ≡ []
    → b.write_page ≡ none
    → b.read_page ≡ none
    → 0 < b.supply
    → 0 < length message
    → length message ≤ page_size
    → (after : IpcBuffer) × ((add_bytes (some message) b ≡ (ok tt, after))
        × IsQueue b.next_page after message)
unfolding add_bytes first_page signal allocate_write_page segment
add_bytes_first message b e w r s l room =
    let fresh = paged (b.supply - 1) b in
    let q : IsQueue b.next_page fresh [] = record {
      offset = 0;
      count = 0;
      pages = rw e refl;
      writes = refl;
      reads = inl (r, refl);
      extent = refl;
      fits = omega arith;
      unread = refl;
    } in
    let a = add_loop-Added b.next_page message fresh [] q (omega arith) in
    (
      ready a.after,
      (
        ground (arith, w, take_page_some b.supply b s, a.returns),
        IsQueue-ready b.next_page a.after message a.queue,
      ),
    )

-- ===== src/IpcBuffer/Reading.antt =====
-- ReadBytes while one page holds all that was written.

use lt_micros.Base.{
  ℕ, zero, suc, ◌+◌, ◌≤◌, ◌<◌, ◌≡◌, refl, sym, inl, inr, some, List, [], ◌∷◌, arith, take, drop,
}
use lt_micros.Base.Words.{page_size}
use lt_micros.Base.Status.{ok}
use lt_micros.IpcBuffer.{IpcBuffer, start_reading, read_loop, read_byte, read_bytes}
use lt_micros.IpcBuffer.Queue.{IsQueue, Reading, segment, same_page_self}

-- The loops of ReadBytes within the page.
record IsAnswered (p n : ℕ) (b : IpcBuffer) (xs : List ℕ) : Type 0 where
  after : IpcBuffer
  returns : read_loop n b ≡ ok (take n xs, after)
  queue : IsQueue p after (drop n xs)

read_loop-IsAnswered :
    (p n offset count : ℕ) (b : IpcBuffer)
    → b.pages ≡ p ∷ []
    → b.write_page ≡ some p
    → Reading p offset b
    → b.write_ptr ≡ offset + count
    → b.write_ptr ≤ page_size
    → IsAnswered p n b (segment b.memory p offset count)
unfolding read_loop read_byte segment
read_loop-IsAnswered p zero offset count b e w r x f = record {
  after = b;
  returns = refl;
  queue = record {
    offset = offset;
    count = count;
    pages = e;
    writes = w;
    reads = inr r;
    extent = x;
    fits = f;
    unread = refl;
  };
}
read_loop-IsAnswered p (suc n) offset zero b e w r x f = record {
  after = b;
  returns = ground (arith, w, r, x, same_page_self p);
  queue = record {
    offset = offset;
    count = 0;
    pages = e;
    writes = w;
    reads = inr r;
    extent = x;
    fits = f;
    unread = refl;
  };
}
read_loop-IsAnswered p (suc n) offset (suc count) b e w r x f =
    let d =
      read_loop-IsAnswered p n (offset + 1) count (record b { read_ptr = b.read_ptr + 1 }) e w
        (r.0, r.1, omega (arith, r.2), r.3) (omega arith) f in
    record { after = d.after; returns = ground (arith, w, r, x, d.returns); queue = d.queue }

-- ReadBytes on a buffer with one page answers the oldest bytes that wait, as many as asked for or
-- else all of them, and leaves the others.
pub read_bytes-IsQueue :
    (p n : ℕ) (b : IpcBuffer) (xs : List ℕ)
    → IsQueue p b xs
    → 0 < n
    → (after : IpcBuffer) × ((read_bytes n b ≡ ok (take n xs, after)) × IsQueue p after (drop n xs))
unfolding read_bytes start_reading
read_bytes-IsQueue p n b xs q some_bytes = elim q.reads [
  | inl (r, z) ↦
      let started = record b {
        read_page = some p;
        read_in = p;
        read_ptr = 0;
        read_limit = b.write_ptr;
      } in
      let d =
        read_loop-IsAnswered p n q.offset q.count started q.pages q.writes (refl, refl, sym z, refl)
          q.extent q.fits in
      (
        d.after,
        (
          ground (arith, r, q.pages, q.writes, same_page_self p, d.returns, q.unread),
          rw q.unread d.queue,
        ),
      )
  | inr r ↦
      let d = read_loop-IsAnswered p n q.offset q.count b q.pages q.writes r q.extent q.fits in
      (d.after, (ground (arith, r, d.returns, q.unread), rw q.unread d.queue))
]

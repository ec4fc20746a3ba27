-- ===== src/IpcBuffer/Stale.antt =====
-- What ReadBytes does at the end of a page: the page is released and the pointer set to the next one,
-- but currentPageRead still names the old page.
use mathlib.Core.Path.{subst}
use lt_micros.Base.{
  ℕ, zero, suc, ◌+◌, ◌-◌, ◌≤◌, ◌<◌, ◌≡◌, ◌≢◌, refl, sym, ◌∙◌, some, List, [], ◌∷◌, ◌++◌, arith,
}
use lt_micros.Base.Words.{page_size}
use lt_micros.Base.Status.{ok}
use lt_micros.IpcBuffer.{
  IpcBuffer, same_page, turn_page, start_reading, read_loop, read_byte, read_bytes,
}
use lt_micros.IpcBuffer.Queue.{segment, append_nil}

-- Bytes below the limit are read one by one, whatever the rest of the state is.
read_front :
    (k n total j : ℕ) (b after : IpcBuffer) (bytes : List ℕ)
    → j ≡ b.read_ptr + k
    → total ≡ k + n
    → j ≤ b.read_limit
    → read_loop n (record b { read_ptr = j }) ≡ ok (bytes, after)
    → read_loop total b ≡ ok (segment b.memory b.read_in b.read_ptr k ++ bytes, after)
unfolding read_loop read_byte segment
read_front zero n total j b after bytes ej et le h =
    let at : j ≡ b.read_ptr = omega arith in
    let all : total ≡ n = omega arith in
    subst (λ i. read_loop i b ≡ ok (bytes, after)) (sym all)
      (subst (λ i. read_loop n (record b { read_ptr = i }) ≡ ok (bytes, after)) at h)
read_front (suc k) n zero j b after bytes ej et le h = absurd (omega arith)
read_front (suc k) n (suc total) j b after bytes ej et le h =
    let r =
      read_front k n total j (record b { read_ptr = b.read_ptr + 1 }) after bytes (omega arith)
        (omega arith) le h in
    ground (arith, r)

-- Reading has begun in `p`, and the bytes behind it are written to the one other page `q`.
pub record IsCrossing (p q : ℕ) (b : IpcBuffer) : Type 0 where
  pub pages : b.pages ≡ p ∷ q ∷ []
  pub writes : b.write_page ≡ some q
  pub reads : b.read_page ≡ some p
  pub inside : b.read_in ≡ p
  pub differ : p ≢ q
  pub limit : b.read_limit ≡ page_size
  pub below : b.read_ptr ≤ page_size

-- The state in which the loop goes on in the next page.
abbrev pub turned : ℕ → IpcBuffer → IpcBuffer
turned q b = record b {
  pages = q ∷ [];
  supply = b.supply + 1;
  read_in = q;
  read_ptr = 0;
  read_limit = page_size;
}

read_turns :
    (p q m : ℕ) (b : IpcBuffer)
    → IsCrossing p q b
    → read_loop (suc m) (record b { read_ptr = page_size }) ≡ read_loop (suc m) (turned q b)
unfolding read_loop turn_page same_page
read_turns p q m b c = ground (arith, c.pages, c.writes, c.reads, c.differ, c.limit)

-- ReadBytes across the end of a page answers the rest of that page and then as many bytes of the
-- next one as were asked for, up to the end of that page, whether or not so many were written.
pub read_bytes_crosses :
    (p q m : ℕ) (b : IpcBuffer)
    → IsCrossing p q b
    → 0 < m
    → m ≤ page_size
    → (after : IpcBuffer) × ((read_bytes (page_size - b.read_ptr + m) b
          ≡ ok (
            segment b.memory p b.read_ptr (page_size - b.read_ptr) ++ segment b.memory q 0 m,
            after,
          ))
        × (after.pages ≡ q ∷ [])
        × (after.read_page ≡ some p)
        × (after.write_ptr ≡ b.write_ptr))
unfolding read_bytes start_reading read_loop
read_bytes_crosses p q zero b c h le = absurd (omega arith)
read_bytes_crosses p q (suc m) b c h le =
    let after = record (turned q b) { read_ptr = suc m } in
    let second : read_loop (suc m) (turned q b) ≡ ok (segment b.memory q 0 (suc m) ++ [], after) =
      read_front (suc m) 0 (suc m) (suc m) (turned q b) after [] (omega arith) (omega arith) le
        refl in
    let first =
      read_front (page_size - b.read_ptr) (suc m) (page_size - b.read_ptr + suc m) page_size b after
        (segment b.memory q 0 (suc m) ++ []) (omega (arith, c.below)) refl (omega (arith, c.limit))
        (read_turns p q m b c ∙ second) in
    (
      after,
      (
        ground (arith, c.reads, c.inside, first, append_nil (segment b.memory q 0 (suc m))),
        refl,
        c.reads,
        refl,
      ),
    )

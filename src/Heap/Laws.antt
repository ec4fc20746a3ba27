-- ===== src/Heap/Laws.antt =====
-- Allocate and Free against the set of blocks in use.
use mathlib.Core.Path.{subst}
use lt_micros.Base.{
  ℕ, suc, ◌+◌, ◌≤◌, ◌<◌, ◌≡◌, refl, sym, ◌⊎◌, inl, inr, none, some, List, [], ◌∷◌, ◌++◌, arith,
}
use lt_micros.Base.Status.{ok, fault}
use lt_micros.Heap.{
  Block, Heap, total, last_block, header_size, size_mod, allocate, allocate_from, first_fit,
  split_block, pages_for, sbrk, new_block,
}
use lt_micros.Heap.Blocks.{
  used_blocks, Inserted, Fits, Fits-cons, first_fit-Fits, first_fit-split_block, split_block-Fits,
}
use lt_micros.Heap.Growth.{IsHeap, Grown, sbrk-Grown, used_blocks_free}

-- Blocks in front of the search keep what it found.
Fits-append :
    (size a a' p : ℕ) (front bs cs : List Block)
    → a' ≡ a + total front
    → Fits size a' bs p cs
    → Fits size a (front ++ bs) p (front ++ cs)
unfolding total
Fits-append size a a' p [] bs cs e f = subst (λ x. Fits size x bs p cs) (omega arith) f
Fits-append size a a' p (b ∷ front) bs cs e f =
    Fits-cons size a p b (front ++ bs) (front ++ cs)
      (Fits-append size (a + b.size) a' p front bs cs (omega arith) f)

-- The allocation succeeded: the data at `p` belong to a new block in use, with `size` bytes behind
-- its header at least, inside the heap, and the other blocks in use are those from before.
pub record IsAllocated (size : ℕ) (h : Heap) (p : ℕ) (g : Heap) : Type 0 where
  pub start : ℕ
  pub len : ℕ
  pub pointer : p ≡ start + header_size
  pub enough : size + header_size ≤ len
  pub low : h.base ≤ start
  pub high : start + len ≤ last_block g
  pub inserted : Inserted (start, len) (used_blocks h.base h.blocks) (used_blocks g.base g.blocks)
  pub is_heap : IsHeap g

Fits-IsAllocated :
    (size p : ℕ) (h g : Heap) (cs : List Block)
    → IsHeap g
    → g.base ≡ h.base
    → used_blocks h.base h.blocks ≡ used_blocks g.base g.blocks
    → Fits (size + header_size) g.base g.blocks p cs
    → IsAllocated size h p (record g { blocks = cs })
unfolding last_block
Fits-IsAllocated size p h g cs i b u f = record {
  start = f.start;
  len = f.len;
  pointer = f.pointer;
  enough = f.enough;
  low = omega (arith, f.low);
  high = omega (arith, f.high, f.sum);
  inserted = rw u f.inserted;
  is_heap = record {
    inside = omega (arith, i.inside, f.sum);
    low = i.low;
    nonempty = f.nonempty (omega arith) i.nonempty;
  };
}

at_base : (h : Heap) → h.base + total [] ≡ h.base
unfolding total
at_base h = omega arith

module _ (size : ℕ) (h : Heap) (i : IsHeap h) where
  -- The search on the heap as it is.
  allocate_found :
      (fuel p : ℕ) (cs : List Block)
      → first_fit (size + header_size) (h.base + total []) h.blocks ≡ some (p, cs)
      → Fits (size + header_size) (h.base + total []) h.blocks p cs
      → (allocate_from (suc fuel) (size + header_size) [] h.blocks h
          ≡ ok (p, record h { blocks = cs }))
        × IsAllocated size h p (record h { blocks = cs })
  unfolding allocate_from
  allocate_found fuel p cs e f = (
    ground (arith, e),
    Fits-IsAllocated size p h h cs i refl refl
        (Fits-append (size + header_size) h.base _ p [] h.blocks cs refl f),
  )

  same_used :
      (g : Heap)
      → Grown (pages_for (size + header_size)) (size + header_size) h g
      → used_blocks h.base h.blocks ≡ used_blocks g.base g.blocks
  same_used g w =
      rw w.same_base (rw w.blocks (sym (used_blocks_free h.base h.blocks (new_block _) refl)))

  -- The search in the block that Sbrk added.
  fit_in_new_block :
      (g : Heap)
      → Grown (pages_for (size + header_size)) (size + header_size) h g
      → (p : ℕ) × ((cs : List Block) × ((first_fit
                (size + header_size)
                (g.base + total h.blocks)
                (new_block (pages_for (size + header_size)) ∷ [])
              ≡ some (p, cs))
            × IsAllocated size h p (record g { blocks = h.blocks ++ cs })))
  fit_in_new_block g w =
      let b = new_block (pages_for (size + header_size)) in
      let a = g.base + total h.blocks in
      (
        a + header_size,
        (
          split_block (size + header_size) b [],
          (
            first_fit-split_block (size + header_size) a b [] refl w.room,
            Fits-IsAllocated size (a + header_size) h g
                (h.blocks ++ split_block (size + header_size) b []) w.is_heap w.same_base
                (same_used g w)
                (subst
                  (λ bs.
                    Fits (size + header_size) g.base bs (a + header_size)
                      (h.blocks ++ split_block (size + header_size) b []))
                  (sym w.blocks)
                  (Fits-append (size + header_size) g.base a (a + header_size) h.blocks (b ∷ [])
                    (split_block (size + header_size) b []) refl
                    (split_block-Fits (size + header_size) a b [] refl w.room))),
          ),
        ),
      )

-- Allocate with a positive size and fuel for one growth of the heap ends in a panic, because no
-- free block is large enough and Sbrk panics, or returns memory of its own: the blocks in use are
-- those from before and a new one, inside the heap, that holds the request.
pub allocate-IsAllocated :
    (fuel size : ℕ) (h : Heap)
    → IsHeap h
    → 0 < size
    → size < size_mod
    → ((first_fit (size + header_size) h.base h.blocks ≡ none)
        × (sbrk (pages_for (size + header_size)) h ≡ fault)
        × (allocate (suc (suc fuel)) size h ≡ fault))
      ⊎ ((p : ℕ) × ((g : Heap) × ((allocate (suc (suc fuel)) size h ≡ ok (p, g))
              × IsAllocated size h p g)))
unfolding allocate allocate_from
allocate-IsAllocated fuel size h i p s =
    elim (first_fit-Fits (size + header_size) (h.base + total []) h.blocks) [
      | inr (q, (cs, e, f)) ↦
          let (r, w) = allocate_found size h i (suc fuel) q cs e f in
          inr (q, (record h { blocks = cs }, (ground (arith, r), w)))
      | inl n ↦ elim (sbrk-Grown (size + header_size) h i (omega arith) (omega arith)) [
        | inl f ↦ inl (
          subst (λ a. first_fit (size + header_size) a h.blocks ≡ none) (at_base h) n,
          f,
          ground (arith, n, f),
        )
        | inr (g, (e, w)) ↦
            let (q, (cs, (r, a))) = fit_in_new_block size h i g w in
            inr (q, (record g { blocks = h.blocks ++ cs }, (ground (arith, n, e, r), a)))
      ]
    ]

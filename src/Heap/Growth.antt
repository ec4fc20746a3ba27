-- ===== src/Heap/Growth.antt =====
-- What Sbrk adds to the heap, and that it is enough.
use lt_micros.Base.{
  ℕ, zero, suc, ◌+◌, ◌-◌, ◌*◌, ◌/◌, ◌%◌, ◌≤◌, ◌<◌, ◌≡◌, refl, ◌⊎◌, inl, inr, some, List, [], ◌∷◌,
  ◌++◌, false, arith, ltb, ◌==◌, Bool-cases,
}
use lt_micros.Base.Words.{page_size, null, add32, mul32}
use lt_micros.Base.Status.{ok, fault}
use lt_micros.Pmm.{get_free_page}
use lt_micros.Heap.{
  Block, Heap, total, last_block, header_size, size_mod, new_block, default_block_size, local_mod,
  local_mod_loop, pages_for, sbrk, sbrk_pages, with_pages, init,
}
use lt_micros.Heap.Blocks.{used_blocks, Nonempty}

-- The blocks end below the limit, which is at most KERNEL_HEAP_V_LIMIT_ADDR.
pub record IsHeap (h : Heap) : Type 0 where
  pub inside : last_block h ≤ h.limit
  pub low : h.limit ≤ 0x4000_0000
  pub nonempty : Nonempty h.blocks

local_mod_zero :
    (fuel a : ℕ)
    → a < fuel
    → 0 < a
    → local_mod_loop fuel a default_block_size ≡ 0
    → a % default_block_size ≡ 0
unfolding local_mod_loop
local_mod_zero zero a h p e = absurd (omega arith)
local_mod_zero (suc fuel) a h p e = ground (arith, local_mod_zero fuel (a - default_block_size))

-- The pages hold the request, with no more than a page to spare.
pages_for-le :
    (size : ℕ)
    → 0 < size
    → (size ≤ pages_for size * default_block_size)
      × (pages_for size ≤ size / default_block_size + 1)
      × (0 < pages_for size)
unfolding pages_for local_mod
pages_for-le size p = let m = local_mod_zero (size + 1) size (omega arith) p in ground (arith, m)

sbrk_pages-cases :
    (n a : ℕ) (bm : List ℕ) (mapped : List (ℕ × ℕ))
    → (sbrk_pages n a bm mapped ≡ fault)
      ⊎ ((r : List ℕ × List (ℕ × ℕ)) × (sbrk_pages n a bm mapped ≡ ok r))
unfolding sbrk_pages
sbrk_pages-cases zero a bm mapped = inr ((bm, mapped), refl)
sbrk_pages-cases (suc n) a bm mapped = elim (Bool-cases ((get_free_page bm).0 == null)) [
  | inl z ↦ inl (rw z refl)
  | inr z ↦ rw z (sbrk_pages-cases n _ _ _)
]

pub used_blocks_free :
    (a : ℕ) (bs : List Block) (b : Block)
    → b.used ≡ false
    → used_blocks a (bs ++ b ∷ []) ≡ used_blocks a bs
unfolding used_blocks
used_blocks_free a [] b f = rw f refl
used_blocks_free a (c ∷ cs) b f = rw (used_blocks_free (a + c.size) cs b f) refl

pub total-append : (bs cs : List Block) → total (bs ++ cs) ≡ total bs + total cs
unfolding total
total-append [] cs = omega arith
total-append (b ∷ bs) cs = omega (arith, total-append bs cs)

total_one : (b : Block) → total (b ∷ []) ≡ b.size
unfolding total
total_one b = omega arith

Nonempty-append : (bs : List Block) (b : Block) → Nonempty bs → 0 < b.size → Nonempty (bs ++ b ∷ [])
Nonempty-append [] b n s = (s, tt)
Nonempty-append (c ∷ cs) b n s = (n.0, Nonempty-append cs b n.1 s)

-- The heap after Sbrk: a free block is at its end, with room for `size` bytes.
pub record Grown (n size : ℕ) (h g : Heap) : Type 0 where
  pub same_base : g.base ≡ h.base
  pub blocks : g.blocks ≡ h.blocks ++ new_block n ∷ []
  pub room : size ≤ (new_block n).size
  pub is_heap : IsHeap g

module _ (n : ℕ) (h : Heap) (i : IsHeap h) (positive : 0 < n)
    (small : n * page_size < 0x8100_0000) where
  -- The new block is not cut, once the limit leaves room for it.
  new_block-room :
      ltb h.limit (add32 (last_block h) (mul32 n page_size)) ≡ false
      → ((new_block n).size ≡ n * page_size) × (last_block h + n * page_size ≤ h.limit)
  new_block-room below = ground (arith, i.inside, i.low)

  with_pages-Grown :
      (size : ℕ) (pages : List ℕ × List (ℕ × ℕ))
      → ltb h.limit (add32 (last_block h) (mul32 n page_size)) ≡ false
      → size ≤ n * page_size
      → Grown n size h (with_pages n h pages)
  unfolding with_pages last_block
  with_pages-Grown size pages below enough =
      let room = new_block-room below in
      record {
        same_base = refl;
        blocks = refl;
        room = omega (arith, room);
        is_heap = record {
          inside =
              omega
                (arith, room, total-append h.blocks (new_block n ∷ []), total_one (new_block n));
          low = i.low;
          nonempty = Nonempty-append h.blocks (new_block n) i.nonempty (omega (arith, room));
        };
      }

  sbrk-cases :
      (sbrk n h ≡ fault)
      ⊎ ((pages : List ℕ × List (ℕ × ℕ)) × ((ltb h.limit (add32 (last_block h) (mul32 n page_size))
              ≡ false)
            × (sbrk n h ≡ ok (some (with_pages n h pages)))))
  unfolding sbrk
  sbrk-cases = elim (Bool-cases (ltb h.limit (add32 (last_block h) (mul32 n page_size)))) [
    | inl over ↦ inl (ground (arith, over))
    | inr below ↦ elim (sbrk_pages-cases n (last_block h) h.bitmap h.mapped) [
      | inl f ↦ inl (ground (arith, f))
      | inr (pages, e) ↦ inr (pages, (below, ground (arith, e)))
    ]
  ]

-- Sbrk for a request ends in a panic, or adds a free block that holds it.
pub sbrk-Grown :
    (size : ℕ) (h : Heap)
    → IsHeap h
    → 0 < size
    → size < size_mod + header_size
    → (sbrk (pages_for size) h ≡ fault)
      ⊎ ((g : Heap) × ((sbrk (pages_for size) h ≡ ok (some g)) × Grown (pages_for size) size h g))
sbrk-Grown size h i p s =
    let pages = pages_for-le size p in
    let small : pages_for size * page_size < 0x8100_0000 = omega (arith, pages) in
    elim (sbrk-cases (pages_for size) h i pages.2 small) [
      | inl f ↦ inl f
      | inr (r, (below, e)) ↦ inr (
        with_pages (pages_for size) h r,
        (
          e,
          with_pages-Grown (pages_for size) h i pages.2 small size r below (omega (arith, pages)),
        ),
      )
    ]

-- Heap::Init ends in a panic, or makes a heap with one free block of a page.
pub init-IsHeap :
    (base limit : ℕ) (bitmap : List ℕ)
    → base ≤ limit
    → limit ≤ 0x4000_0000
    → (init base limit bitmap ≡ fault)
      ⊎ ((g : Heap) × ((init base limit bitmap ≡ ok (some g))
            × (g.blocks ≡ record { size = page_size; used = false } ∷ [])
            × IsHeap g))
unfolding init last_block total with_pages
init-IsHeap base limit bitmap le low =
    let h : Heap = record {
      base = base;
      limit = limit;
      blocks = [];
      bitmap = bitmap;
      mapped = [];
    } in
    let i : IsHeap h = record { inside = omega (arith, le); low = low; nonempty = tt } in
    elim (sbrk-cases 1 h i (omega arith) (omega arith)) [
      | inl f ↦ inl f
      | inr (pages, (below, e)) ↦ inr (
        with_pages 1 h pages,
        (
          e,
          refl,
          (with_pages-Grown 1 h i (omega arith) (omega arith) page_size pages below
              (omega arith)).is_heap,
        ),
      )
    ]

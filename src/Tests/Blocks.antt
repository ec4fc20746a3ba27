-- ===== src/Tests/Blocks.antt =====
-- The kernel heap at concrete inputs.
use lt_micros.Base.{ℕ, ◌+◌, ◌≡◌, ◌⊎◌, refl, none, [], ◌∷◌, true, false, arith}
use lt_micros.Base.Status.{ok, fault}
use lt_micros.Heap.{
  Block, Heap, last_block, total, allocate, allocate_from, first_fit, free, sbrk, pages_for,
  header_size,
}
use lt_micros.Heap.Blocks.{used_blocks}
use lt_micros.Heap.Growth.{IsHeap}
use lt_micros.Heap.Laws.{IsAllocated, allocate-IsAllocated}
use lt_micros.Heap.Release.{free-allocate}

-- The word at lastBlock, of a page that is not mapped yet: the entry of the kernel's page table
-- leads to the physical page 0.
abbrev beyond : Block
beyond = record { size = 0x7000_ff53; used = true }

-- A used block, a free one and another used one, in one page.
abbrev heap : Heap
heap = record {
  base = 0x100_0000;
  limit = 0x4000_0000;
  blocks =
      record { size = 20; used = true }
      ∷ record { size = 60; used = false }
      ∷ record { size = 4016; used = true }
      ∷ [];
  bitmap = 255 ∷ 0 ∷ [];
  mapped = (0x100_0000, 0x7000) ∷ [];
}

heap-IsHeap : IsHeap heap
unfolding last_block total
heap-IsHeap = record { inside = omega arith; low = omega arith; nonempty = omega arith }

allocate-IsAllocated_example :
    ((first_fit (10 + header_size) 0x100_0000 heap.blocks ≡ none)
      × (sbrk (pages_for (10 + header_size)) heap ≡ fault)
      × (allocate 2 10 heap ≡ fault))
    ⊎ ((p : ℕ) × ((g : Heap) × ((allocate 2 10 heap ≡ ok (p, g)) × IsAllocated 10 heap p g)))
allocate-IsAllocated_example =
    allocate-IsAllocated 0 10 heap heap-IsHeap (omega arith) (omega arith)

-- The heap after an allocation of 10 bytes, which splits the free block.
abbrev after : Heap
after = record heap {
  blocks =
      record { size = 20; used = true }
      ∷ record { size = 14; used = true }
      ∷ record { size = 46; used = false }
      ∷ record { size = 4016; used = true }
      ∷ [];
}

allocates : allocate 2 10 heap ≡ ok (0x100_0018, after)
unfolding allocate allocate_from first_fit total
allocates = refl

after-IsAllocated : IsAllocated 10 heap 0x100_0018 after
unfolding last_block total used_blocks
after-IsAllocated = record {
  start = 0x100_0014;
  len = 14;
  pointer = refl;
  enough = omega arith;
  low = omega arith;
  high = omega arith;
  inserted = record {
    front = (0x100_0000, 20) ∷ [];
    back = (0x100_0050, 4016) ∷ [];
    old = refl;
    new = refl;
  };
  is_heap = record { inside = omega arith; low = omega arith; nonempty = omega arith };
}

free-allocate_example :
    (k : Heap) × ((free beyond 0x100_0018 after ≡ ok k)
      × (used_blocks k.base k.blocks ≡ used_blocks heap.base heap.blocks)
      × IsHeap k)
free-allocate_example = free-allocate beyond 10 0x100_0018 heap after refl after-IsAllocated

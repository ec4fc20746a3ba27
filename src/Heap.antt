-- ===== src/Heap.antt =====
-- kernel/mem/Heap.hpp and Heap.cpp: the kernel heap. Its blocks lie one behind the other from
-- baseBlock to lastBlock, each with its header of four bytes; they are a list, and an address is the
-- base plus the sizes in front. Clients are taken to write inside their blocks. What a block holds
-- besides its header is not modelled.
pub mod Blocks
pub mod Growth
pub mod Laws
pub mod Release
use lt_micros.Base.{
  ℕ, zero, suc, ◌+◌, ◌-◌, ◌*◌, ◌/◌, ◌%◌, ◌^◌, Option, none, some, List, [], ◌∷◌, ◌++◌, Bool, true,
  false, ◌||◌, if◌then◌else◌, ◌==◌, ltb, leb,
}
use lt_micros.Base.Words.{null, page_size, add32, sub32, mul32}
use lt_micros.Base.Status.{Run, ok, err, fault, running, ◌>>=◌}
use lt_micros.Pmm.{get_free_page}

-- MemBlock: 31 bits of size, header included, and one of state.
pub record Block : Type 0 where
  pub size : ℕ
  pub used : Bool

abbrev pub size_mod : ℕ
size_mod = 2 ^ 31

abbrev pub header_size : ℕ
header_size = 4

abbrev pub minimal_block_size : ℕ
minimal_block_size = 4

abbrev pub default_block_size : ℕ
default_block_size = page_size - header_size

-- The heap, with the bitmap of the page allocator and the pages that Sbrk mapped, newest first.
pub record Heap : Type 0 where
  pub base : ℕ
  pub limit : ℕ
  pub blocks : List Block
  pub bitmap : List ℕ
  pub mapped : List (ℕ × ℕ)

unfoldable pub total : List Block → ℕ
total [] = 0
total (b ∷ bs) = b.size + total bs

-- lastBlock
unfoldable pub last_block : Heap → ℕ
unfolding total
last_block h = h.base + total h.blocks

-- `while (a > b) a -= b; return (a < b) ? 1 : 0;` on fuel.
unfoldable pub local_mod_loop : ℕ → ℕ → ℕ → ℕ
local_mod_loop zero a b = 0
local_mod_loop (suc fuel) a b =
    let rest = local_mod_loop fuel (a - b) b in if ltb b a then rest else if ltb a b then 1 else 0

-- _local_mod of Heap.cpp; `a` rounds are enough for a positive `b`.
unfoldable pub local_mod : ℕ → ℕ → ℕ
unfolding local_mod_loop
local_mod a b = local_mod_loop (a + 1) a b

-- The loop of Sbrk: a page from the allocator at each address from `heap` on.
unfoldable pub sbrk_pages : ℕ → ℕ → List ℕ → List (ℕ × ℕ) → Run (List ℕ × List (ℕ × ℕ))
sbrk_pages zero heap bitmap mapped = ok (bitmap, mapped)
sbrk_pages (suc n) heap bitmap mapped =
    let (page, bm) = get_free_page bitmap in
    let rest = sbrk_pages n (add32 heap page_size) bm ((heap, page) ∷ mapped) in
    if page == null then fault else rest

abbrev pub new_block : ℕ → Block
new_block n = record { size = mul32 n page_size % size_mod; used = false }

unfoldable pub with_pages : ℕ → Heap → List ℕ × List (ℕ × ℕ) → Heap
with_pages n h (bm, mapped) = record h {
  blocks = h.blocks ++ new_block n ∷ [];
  bitmap = bm;
  mapped = mapped;
}

-- Heap::Sbrk; `none` is the null pointer that it answers for `n <= 0` as an `int`. The answer is
-- otherwise the new block, which is the last one.
unfoldable pub sbrk : ℕ → Heap → Run (Option Heap)
unfolding with_pages sbrk_pages last_block
sbrk n h =
    if (n == 0) || leb size_mod n
    then ok none
    else if ltb h.limit (add32 (last_block h) (mul32 n page_size))
    then fault
    else sbrk_pages n (last_block h) h.bitmap h.mapped >>= λ pages. ok (some (with_pages n h pages))

-- The block that the loop of _Allocate settles on, in use: with _SplitBlock, if the rest can be a
-- block.
unfoldable pub split_block : ℕ → Block → List Block → List Block
split_block size b bs =
    if leb (header_size + minimal_block_size) (b.size - size)
    then record { size = size; used = true } ∷ record { size = b.size - size; used = false } ∷ bs
    else record b { used = true } ∷ bs

-- The loop of _Allocate on the blocks from `address` on: the first free block that is large enough. It answers the address of the data.
unfoldable pub first_fit : ℕ → ℕ → List Block → Option (ℕ × List Block)
unfolding split_block
first_fit size address [] = none
first_fit size address (b ∷ bs) =
    let rest = first_fit size (address + b.size) bs in
    if b.used || ltb b.size size
    then elim rest [ none ↦ none | some (p, cs) ↦ some (p, b ∷ cs) ]
    else some (address + header_size, split_block size b bs)

-- The number of pages that _Allocate asks Sbrk for.
unfoldable pub pages_for : ℕ → ℕ
unfolding local_mod
pages_for size =
    if ltb default_block_size size
    then if ltb 0 (local_mod size default_block_size)
      then size / default_block_size + 1
      else size / default_block_size
    else 1

-- Heap::_Allocate from the blocks `back` on, behind the blocks `front`, with its recursion on fuel.
-- A block that Sbrk added is marked as used twice.
unfoldable pub allocate_from : ℕ → ℕ → List Block → List Block → Heap → Run (ℕ × Heap)
unfolding first_fit pages_for sbrk total
allocate_from zero size front back h = running
allocate_from (suc fuel) size front back h = elim (first_fit size (h.base + total front) back) [
  | some (p, bs) ↦ ok (p, record h { blocks = front ++ bs })
  | none ↦ sbrk (pages_for size) h >>= λ grown. elim grown [
    | none ↦ fault
    | some g ↦ allocate_from fuel size (front ++ back) (new_block (pages_for size) ∷ []) g
  ]
]

-- Heap::Allocate; a size that is not positive as an `int` is answered with a null pointer.
unfoldable pub allocate : ℕ → ℕ → Heap → Run (ℕ × Heap)
unfolding allocate_from
allocate fuel size h =
    if (size == 0) || leb size_mod size
    then ok (null, h)
    else allocate_from fuel (size + header_size) [] h.blocks h

-- _MergeBlocksFrom on a block and those behind it; `beyond` is the word that is read as a header at
-- the address lastBlock. A free block there makes lastBlock the merged block itself, which is then
-- no block of the heap.
unfoldable pub merge_blocks_from : Block → Block → List Block → List Block
merge_blocks_from beyond b [] = if (beyond.size == 0) || beyond.used then b ∷ [] else []
merge_blocks_from beyond b (next ∷ bs) =
    let rest = merge_blocks_from beyond (record b { size = (b.size + next.size) % size_mod }) bs in
    if (next.size == 0) || next.used then b ∷ next ∷ bs else rest

-- The body of Free on the block at the address `target`, from `address` on. A pointer that is not
-- behind the header of a block ends in `fault`: the code would read the header from elsewhere.
unfoldable pub free_block : Block → ℕ → ℕ → List Block → Run (List Block)
unfolding merge_blocks_from
free_block beyond target address [] = fault
free_block beyond target address (b ∷ bs) =
    let rest = free_block beyond target (address + b.size) bs in
    if address == target
    then if b.used
      then ok (merge_blocks_from beyond (record b { used = false }) bs)
      else ok (b ∷ bs)
    else rest >>= λ cs. ok (b ∷ cs)

-- Heap::Free
unfoldable pub free : Block → ℕ → Heap → Run Heap
unfolding free_block
free beyond ptr h =
    if ptr == null
    then ok h
    else free_block beyond (sub32 ptr header_size) h.base h.blocks >>= λ bs.
        ok (record h { blocks = bs })

-- Heap::Init; a page that Sbrk does not get panics.
unfoldable pub init : ℕ → ℕ → List ℕ → Run (Option Heap)
unfolding sbrk
init base limit bitmap =
    sbrk 1 (record { base = base; limit = limit; blocks = []; bitmap = bitmap; mapped = [] })

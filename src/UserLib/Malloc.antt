-- ===== src/UserLib/Malloc.antt =====
-- userland/StdLib/src/malloc.cpp: the heap of a program. Its blocks lie one behind the other from
-- g_baseBlock on, each with its header of four bytes, as the regions that _sysSbrk gives do. Whether
-- the kernel gives a region, by its address and number of pages, is a parameter. g_limitBlock is read
-- by nothing but DumpHeap, and what a block holds besides its header is left out.
use lt_micros.Base.{
  ℕ, zero, suc, ◌+◌, ◌-◌, ◌*◌, ◌/◌, ◌%◌, ◌≤◌, ◌<◌, ◌≡◌, refl, ap, sym, ◌∙◌, Option, none, some,
  List, [], ◌∷◌, ◌++◌, Bool, true, false, ◌||◌, if◌then◌else◌, ◌==◌, ltb, leb, lt→ltb, le→ltb,
  arith,
}
use lt_micros.Base.Words.{null, page_size}
use lt_micros.Base.Status.{Run, ok, err, fault, running}
use lt_micros.Heap.{
  Block, size_mod, header_size, minimal_block_size, default_block_size, total, local_mod,
}

-- g_baseBlock, the blocks from it on, and g_lastBlock.
pub record Malloc : Type 0 where
  pub base : ℕ
  pub blocks : List Block
  pub last : ℕ

-- InitMalloc
abbrev pub init_malloc : Malloc
init_malloc = record { base = null; blocks = []; last = null }

-- ClosestPow, on fuel.
unfoldable pub closest_pow : (fuel x y : ℕ) → Run ℕ
unfolding local_mod
closest_pow zero x y = running
closest_pow (suc fuel) x y =
    let rest = closest_pow fuel (x + 1) y in if local_mod x y == 0 then ok x else rest

-- The block that _Allocate takes, and what _SplitBlock leaves of it.
unfoldable pub take_block : (size : ℕ) → Block → List Block
take_block size b =
    if leb (header_size + minimal_block_size) (b.size - size)
    then record { size = size; used = true } ∷ record { size = b.size - size; used = false } ∷ []
    else record { size = b.size; used = true } ∷ []

abbrev pub keep_front : Block → Option (ℕ × List Block) → Option (ℕ × List Block)
keep_front b none = none
keep_front b (some (a, bs)) = some (a, b ∷ bs)

-- The loop of _Allocate, from the block at the address `at` on: the address of the block taken, and the
-- blocks. It goes no further than g_lastBlock.
unfoldable pub find_block : (last size at : ℕ) → List Block → Option (ℕ × List Block)
unfolding take_block
find_block last size at [] = none
find_block last size at (b ∷ bs) =
    let rest = keep_front b (find_block last size (at + b.size) bs) in
    if ltb last at
    then none
    else if b.used || ltb b.size size
    then rest
    else some (at, take_block size b ++ bs)

-- The pages that _Allocate asks for.
unfoldable pub pages_for : ℕ → ℕ
unfolding local_mod
pages_for size =
    if ltb default_block_size size
    then size / default_block_size + (if ltb 0 (local_mod size default_block_size) then 1 else 0)
    else 1

-- The new block of _Sbrk.
abbrev pub region : ℕ → Block
region pages = record { size = pages * page_size % size_mod; used = false }

-- The end of _Allocate, where the loop found a block and where it did not.
abbrev pub found_or :
    List Block → Malloc → Option (ℕ × List Block) → Run (ℕ × Malloc) → Run (ℕ × Malloc)
found_or before m (some (a, from)) otherwise =
    ok (a + header_size, record m { blocks = before ++ from })
found_or before m none otherwise = otherwise

module _ (granted : (address pages : ℕ) → Bool) where
  -- _Allocate, from the blocks `from` on that lie behind `before`. The block is written to where the
  -- kernel gives it, which is at 0 if it gives none.
  unfoldable pub allocate : (fuel size : ℕ) (before from : List Block) → Malloc → Run (ℕ × Malloc)
  allocate zero size before from m = running
  allocate (suc fuel) size before from m =
      let end = m.base + total (before ++ from) in
      let pages = pages_for size in
      let grown =
        allocate fuel size (before ++ from) (region pages ∷ []) (record m { last = end }) in
      let otherwise = if granted end pages then grown else fault in
      found_or before m (find_block m.last size (m.base + total before) from) otherwise

  -- HeapAlloc behind its checks; `start` is where the kernel puts the first region.
  unfoldable pub heap_alloc_sized : (fuel start size : ℕ) → Malloc → Run (ℕ × Malloc)
  unfolding allocate
  heap_alloc_sized fuel start size m =
      let fresh : Malloc = record { base = start; blocks = region 1 ∷ []; last = start } in
      if m.base == null
      then (if granted start 1 then allocate fuel size [] fresh.blocks fresh else fault)
      else allocate fuel size [] m.blocks m

  -- HeapAlloc of an int that is not negative; a size of 0 answers null.
  unfoldable pub heap_alloc : (fuel start size : ℕ) → Malloc → Run (ℕ × Malloc)
  unfolding heap_alloc_sized closest_pow
  heap_alloc fuel start size m =
      let sized = closest_pow 4 (size + header_size) 4 in
      if size == 0 then ok (null, m) else elim sized [
        | ok block_size ↦ heap_alloc_sized fuel start block_size m
        | err e ↦ err e
        | fault ↦ fault
        | running ↦ running
      ]

-- HeapFree, for the block at an address; a free one stays free. No blocks are merged.
unfoldable pub free_block : (address at : ℕ) → List Block → List Block
free_block address at [] = []
free_block address at (b ∷ bs) =
    (if at == address then record b { used = false } else b) ∷ free_block address (at + b.size) bs

unfoldable pub heap_free : ℕ → Malloc → Malloc
unfolding free_block
heap_free ptr m =
    if ptr == null then m else record m { blocks = free_block (ptr - header_size) m.base m.blocks }

-- A block that cannot be taken for a size, and a list of such.
abbrev pub Taken : ℕ → Block → Type 0
Taken size b = (b.used || ltb b.size size) ≡ true

abbrev pub AllTaken : ℕ → List Block → Type 0
AllTaken size [] = Unit {0}
AllTaken size (b ∷ bs) = Taken size b × AllTaken size bs

-- Blocks behind the last region's first one are not looked at.
find_block_beyond :
    (last size at : ℕ) (bs : List Block) → last < at → find_block last size at bs ≡ none
unfolding find_block
find_block_beyond last size at [] h = refl
find_block_beyond last size at (b ∷ bs) h = rw (lt→ltb last at h) refl

find_block-Taken :
    (last size at : ℕ) (b : Block) (bs : List Block)
    → at ≤ last
    → Taken size b
    → find_block last size at (b ∷ bs) ≡ keep_front b (find_block last size (at + b.size) bs)
unfolding find_block
find_block-Taken last size at b bs h taken = rw (le→ltb last at h) (rw taken refl)

find_block-none :
    (last size at : ℕ) (before : List Block) (b : Block) (rest : List Block)
    → AllTaken size before
    → Taken size b
    → 0 < b.size
    → at + total before ≡ last
    → find_block last size at (before ++ b ∷ rest) ≡ none
unfolding total
find_block-none last size at [] b rest h taken real e =
    find_block-Taken last size at b rest (omega arith) taken
    ∙ ap (keep_front b) (find_block_beyond last size (at + b.size) rest (omega arith))
find_block-none last size at (x ∷ before) b rest h taken real e =
    find_block-Taken last size at x (before ++ b ∷ rest) (omega arith) h.0
    ∙ ap (keep_front x)
        (find_block-none last size (at + x.size) before b rest h.1 taken real (omega arith))

find_region :
    (size last at : ℕ)
    → size ≤ default_block_size
    → last ≡ at
    → find_block last size at (region 1 ∷ []) ≡ some (at, take_block size (region 1) ++ [])
unfolding find_block
find_region size last at fits e =
    let here : ltb last at ≡ false = le→ltb last at (omega arith) in
    let large : ltb (region 1).size size ≡ false = le→ltb 4096 size (omega arith) in
    rw here (rw large refl)

one_page : (size : ℕ) → size ≤ default_block_size → pages_for size ≡ 1
unfolding pages_for
one_page size fits =
    let small : ltb default_block_size size ≡ false = le→ltb 4092 size (omega arith) in
    rw small refl

module _ (granted : (address pages : ℕ) → Bool) where
  -- What _Allocate does where its loop finds nothing.
  abbrev grow : (fuel size : ℕ) (before from : List Block) → Malloc → ℕ → Run (ℕ × Malloc)
  grow fuel size before from m pages =
      let end = m.base + total (before ++ from) in
      if granted end pages
      then allocate granted fuel size (before ++ from) (region pages ∷ []) (record m { last = end })
      else fault

  taken_region :
      (fuel size : ℕ) (before : List Block) (m : Malloc)
      → size ≤ default_block_size
      → m.last ≡ m.base + total before
      → allocate granted (suc fuel) size before (region 1 ∷ []) m
        ≡ ok (
          m.last + header_size,
          record m { blocks = before ++ (take_block size (region 1) ++ []) },
        )
  unfolding allocate
  taken_region fuel size before m fits e =
      ap (λ o. found_or before m o (grow fuel size before (region 1 ∷ []) m (pages_for size)))
        (find_region size m.last (m.base + total before) fits e)
      ∙ ap
          (λ a.
            ok
              (a + header_size, record m { blocks = before ++ (take_block size (region 1) ++ []) }))
          (sym e)

  grown_step :
      (fuel size : ℕ) (from : List Block) (m : Malloc)
      → size ≤ default_block_size
      → find_block m.last size (m.base + 0) from ≡ none
      → granted (m.base + total from) 1 ≡ true
      → allocate granted (suc fuel) size [] from m
        ≡ allocate granted fuel size from (region 1 ∷ []) (record m { last = m.base + total from })
  unfolding allocate pages_for total
  grown_step fuel size from m fits nowhere given =
      ap (λ o. found_or [] m o (grow fuel size [] from m (pages_for size))) nowhere
      ∙ ap (grow fuel size [] from m) (one_page size fits)
      ∙ ap
          (λ b.
            if b
            then allocate granted fuel size from (region 1 ∷ [])
                (record m { last = m.base + total from })
            else fault)
          given

  -- When the first block of the newest region is in use, and each block before it is in use or too
  -- small, an allocation of at most a page takes another page from the kernel, whatever is free behind
  -- that first block.
  pub allocate_passes_over :
      (fuel size : ℕ) (before rest : List Block) (b : Block) (m : Malloc)
      → size ≤ default_block_size
      → m.last ≡ m.base + total before
      → AllTaken size before
      → b.used ≡ true
      → 0 < b.size
      → let blocks = before ++ b ∷ rest in
        let end = m.base + total blocks in
        granted end 1 ≡ true
        → allocate granted (suc (suc fuel)) size [] blocks m
          ≡ ok (
            end + header_size,
            record m { last = end; blocks = blocks ++ (take_block size (region 1) ++ []) },
          )
  allocate_passes_over fuel size before rest b m fits e taken used real given =
      let blocks = before ++ b ∷ rest in
      let end = m.base + total blocks in
      grown_step (suc fuel) size blocks m fits
        (find_block-none m.last size (m.base + 0) before b rest taken (ground arith) real
          (omega arith))
        given
      ∙ taken_region fuel size blocks (record m { last = end }) fits refl

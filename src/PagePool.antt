-- ===== src/PagePool.antt =====
-- kernel/mem/PagePool.hpp and PagePool.cpp: pages of the kernel's address space, on two linked
-- lists. The blocks are an array, and a pointer to a block is its index; a page is its physical and
-- its virtual address. The walk of Free takes fuel.
pub mod Chains
use lt_micros.Base.{
  ℕ, zero, suc, ◌+◌, ◌*◌, ◌/◌, Option, none, some, List, [], ◌∷◌, Bool, true, false, if◌then◌else◌,
  ◌==◌,
}
use lt_micros.Base.Words.{page_size, add32, sub32, mul32}
use lt_micros.Base.Status.{Run, ok, fault, running, ◌>>=◌}
use lt_micros.Pmm.{get_free_page, release_page}

pub record PageBlock : Type 0 where
  pub available : Bool
  pub addr : ℕ
  pub next : Option ℕ
  pub prev : Option ℕ

-- The pool, with the bitmap of the page allocator and the pages mapped, newest first.
pub record PagePool : Type 0 where
  pub blocks : ℕ → PageBlock
  pub avail_page_list : Option ℕ
  pub used_page_list : Option ℕ
  pub bitmap : List ℕ
  pub mapped : List (ℕ × ℕ)

-- `blocks[i]` is changed.
unfoldable pub update : (ℕ → PageBlock) → ℕ → (PageBlock → PageBlock) → ℕ → PageBlock
update blocks i f j = if j == i then f (blocks i) else blocks j

-- The same behind a pointer that is tested for null.
unfoldable pub update_some : (ℕ → PageBlock) → Option ℕ → (PageBlock → PageBlock) → ℕ → PageBlock
unfolding update
update_some blocks none f = blocks
update_some blocks (some i) f = update blocks i f

-- The loop of _InitPagesList, for the rounds left.
unfoldable pub init_blocks : ℕ → ℕ → ℕ → Option ℕ → (ℕ → PageBlock) → ℕ → PageBlock
unfolding update update_some
init_blocks zero index base prev blocks = blocks
init_blocks (suc n) index base prev blocks =
    let own = update blocks index (λ b. record {
      available = true;
      addr = add32 base (mul32 index page_size);
      next = none;
      prev = prev;
    }) in
    init_blocks n (index + 1) base (some index)
      (update_some own prev (λ b. record b { next = some index }))

-- PagePool::Init; without memory for the blocks the kernel panics.
unfoldable pub init : Bool → ℕ → ℕ → (ℕ → PageBlock) → List ℕ → Run PagePool
unfolding init_blocks
init allocated base limit blocks bitmap =
    if allocated
    then ok (record {
      blocks = init_blocks (sub32 limit base / page_size) 0 base none blocks;
      avail_page_list = some 0;
      used_page_list = none;
      bitmap = bitmap;
      mapped = [];
    })
    else fault

-- Allocate with `i` the first available block.
take_block : PagePool → ℕ → (ℕ × ℕ) × PagePool
unfolding update update_some
take_block pool i =
    let rest = (pool.blocks i).next in
    let unlinked = update_some pool.blocks rest (λ b. record b { prev = none }) in
    let linked =
      update unlinked i (λ b. record b { available = false; next = pool.used_page_list }) in
    let (frame, bitmap) = get_free_page pool.bitmap in
    (
      (frame, (pool.blocks i).addr),
      record {
        blocks = update_some linked pool.used_page_list (λ b. record b { prev = some i });
        avail_page_list = rest;
        used_page_list = some i;
        bitmap = bitmap;
        mapped = ((pool.blocks i).addr, frame) ∷ pool.mapped;
      },
    )

-- Allocate; a pool without pages answers a page of zeros.
unfoldable pub allocate : PagePool → (ℕ × ℕ) × PagePool
unfolding take_block
allocate pool = elim pool.avail_page_list [ none ↦ ((0, 0), pool) | some i ↦ take_block pool i ]

-- The walk of Free to the block with an address.
unfoldable pub find_used : ℕ → (ℕ → PageBlock) → ℕ → Option ℕ → Run (Option ℕ)
find_used zero blocks v_addr at = running
find_used (suc fuel) blocks v_addr none = ok none
find_used (suc fuel) blocks v_addr (some i) =
    let rest = find_used fuel blocks v_addr (blocks i).next in
    if (blocks i).addr == v_addr then ok (some i) else rest

unfoldable pub is_head : Option ℕ → ℕ → Bool
is_head none i = false
is_head (some j) i = i == j

-- The first part of Free on the block `i`: at the head of the used list, or inside it, where the
-- block in front keeps its `next`.
unfoldable pub unlink : PagePool → ℕ → PagePool
unfolding is_head update update_some
unlink pool i =
    let next = (pool.blocks i).next in
    if is_head pool.used_page_list i then record pool { used_page_list = next } else record pool {
      blocks =
          update_some (update pool.blocks i (λ b. record b { prev = next })) next
            (λ b. record b { prev = next });
    }

-- The second part: in front of the available blocks. The head of that list is not tested for null.
unfoldable pub make_available : PagePool → ℕ → ℕ → Run PagePool
unfolding update
make_available pool i p_addr = elim pool.avail_page_list [
  | none ↦ fault
  | some first ↦ ok (record pool {
    blocks =
        update (update pool.blocks first (λ b. record b { prev = some i })) i
          (λ b. record b { next = some first; available = true });
    avail_page_list = some i;
    bitmap = release_page pool.bitmap p_addr;
  })
]

-- Free
unfoldable pub free : ℕ → PagePool → ℕ × ℕ → Run PagePool
unfolding find_used unlink make_available
free fuel pool (p_addr, v_addr) = find_used fuel pool.blocks v_addr pool.used_page_list >>= λ found.
    elim found [ none ↦ ok pool | some i ↦ make_available (unlink pool i) i p_addr ]

-- ===== src/Pmm.antt =====
-- kernel/arch/x86/Pmm.hpp and Pmm.cpp: the physical page allocator over a bitmap. `memBitmap` is a
-- list of bytes, one bit to a page; a set bit is a page in use.
pub mod Bitmap
pub mod Search
pub mod Laws
pub mod Boot
use lt_micros.Base.{
  ℕ, zero, suc, ◌+◌, ◌-◌, ◌*◌, ◌/◌, ◌%◌, Option, none, some, List, [], ◌∷◌, Bool, true, false,
  if◌then◌else◌, ◌==◌, set, get_or, replicate,
}
use lt_micros.Base.Words.{page_size, mul32, sub32}
use lt_micros.Base.Bits.{test_bit, set_bit, clear_bit}

abbrev pub ram_maxpage : ℕ
ram_maxpage = 0x100000

abbrev pub mem_bitmap_size : ℕ
mem_bitmap_size = ram_maxpage / 8

-- `(void *)(-1)`
abbrev pub no_page : ℕ
no_page = 0xffff_ffff

-- PAGE(addr)
abbrev pub page_of : ℕ → ℕ
page_of addr = addr / 4096

-- SET_PAGE_USED(page)
unfoldable pub set_page_used : List ℕ → ℕ → List ℕ
set_page_used bm page = set bm (page / 8) (set_bit (get_or bm (page / 8) 0) (page % 8))

-- SET_PAGE_UNUSED(addr)
unfoldable pub set_page_unused : List ℕ → ℕ → List ℕ
set_page_unused bm addr =
    let page = addr / page_size in set bm (page / 8) (clear_bit (get_or bm (page / 8) 0) (page % 8))

-- `for (bit = 0; bit < 8; bit++) if (!(b & (1 << bit))) ...`, on the rounds left.
unfoldable pub find_bit : ℕ → ℕ → ℕ → Option ℕ
find_bit zero bit b = none
find_bit (suc n) bit b =
    let rest = find_bit n (bit + 1) b in if test_bit b bit then rest else some bit

-- The two loops of GetFreePage up to the page that they settle on; `byte` counts the bytes passed.
unfoldable pub find_page : List ℕ → ℕ → Option ℕ
find_page [] byte = none
find_page (b ∷ bs) byte =
    let rest = find_page bs (byte + 1) in
    if b == 255
    then rest
    else elim (find_bit 8 0 b) [ some bit ↦ some (8 * byte + bit) | none ↦ rest ]

-- PmmBitmap::GetFreePage
unfoldable pub get_free_page : List ℕ → ℕ × List ℕ
get_free_page bm = elim (find_page bm 0) [
  | some page ↦ (mul32 page page_size, set_page_used bm page)
  | none ↦ (no_page, bm)
]

-- PmmBitmap::ReleasePage
unfoldable pub release_page : List ℕ → ℕ → List ℕ
unfolding set_page_unused
release_page bm addr = set_page_unused bm addr

-- The first loop of Init: `memBitmap[page] = 0xFF` on the bytes from `page` on, for the rounds left.
unfoldable pub fill_used : ℕ → ℕ → List ℕ → List ℕ
fill_used zero page bm = bm
fill_used (suc n) page bm = fill_used n (page + 1) (set bm page 255)

-- The second loop of Init: the pages below the kernel's limit, for the rounds left.
unfoldable pub use_pages : ℕ → ℕ → List ℕ → List ℕ
use_pages zero page bm = bm
use_pages (suc n) page bm = use_pages n (page + 1) (set_page_used bm page)

-- PmmBitmap::Init over a bitmap of `size` bytes; `high_mem` is what the boot loader reports, in KB,
-- and `limit` the physical address where the kernel ends.
unfoldable pub init : ℕ → ℕ → ℕ → List ℕ
unfolding fill_used use_pages
init size high_mem limit =
    let last_page = mul32 high_mem 1024 / page_size in
    use_pages (page_of limit) 0
      (fill_used (size - last_page / 8) (last_page / 8) (replicate size 0))

-- ===== src/Vmm.antt =====
-- kernel/arch/x86/Vmm.hpp and Vmm.cpp: the page tables, reached through the last entry of the page
-- directory, which leads back to the directory. Memory is a word to each physical address that is a
-- multiple of four; a virtual address is followed through both tables at each access, as the comment
-- in GetPhysicalAddressOf has it: what the processor remembers of a table is not modelled, nor are
-- pages of 4 MB. `|` of an address and an offset that share no bit is a sum.
pub mod Entries
pub mod Walk
pub mod Mapping
pub mod Machine
use lt_micros.Base.{
  ℕ, zero, suc, ◌+◌, ◌-◌, ◌*◌, ◌/◌, ◌%◌, Option, none, some, List, [], ◌∷◌, Bool, true, false, not,
  ◌&&◌, if◌then◌else◌, ◌==◌, ltb, leb,
}
use Prim.Native.Nat.{bit_or}
use lt_micros.Base.Words.{null, page_size, add32, mul32}
use lt_micros.Base.Status.{Run, ok, err, fault, running, ◌>>=◌}
use lt_micros.PagePool.{PagePool}
use lt_micros.PagePool

abbrev pub nb_pages_per_table : ℕ
nb_pages_per_table = 1024

abbrev pub nb_pages_table_per_kernel_directory : ℕ
nb_pages_table_per_kernel_directory = 256

abbrev pub v_user_base_addr : ℕ
v_user_base_addr = 0x4000_0000

-- PAGE_PRESENT | PAGE_WRITEABLE
abbrev pub present_writeable : ℕ
present_writeable = 3

abbrev pub Memory : Type 0
Memory = ℕ → ℕ

-- The memory, cr3, s_SavedPageDirectoryEntry, and the page pool.
pub record Vmm : Type 0 where
  pub memory : Memory
  pub cr3 : ℕ
  pub saved : ℕ
  pub pool : PagePool

unfoldable pub write : Memory → ℕ → ℕ → Memory
write memory a w b = if b == a then w else memory b

-- The bit `present` of an entry, and the address in its upper 20 bits.
abbrev pub is_present : ℕ → Bool
is_present entry = entry % 2 == 1

abbrev pub frame_of : ℕ → ℕ
frame_of entry = entry / 4096 * 4096

-- Where the entry of a directory and that of a table stand for a virtual address.
abbrev pub directory_slot : ℕ → ℕ → ℕ
directory_slot cr3 v = cr3 + 4 * (v / 0x40_0000)

abbrev pub table_slot : ℕ → ℕ → ℕ
table_slot pde v = frame_of pde + 4 * (v / 4096 % 1024)

-- The physical address of a virtual one, if both entries are present.
unfoldable pub translate : Memory → ℕ → ℕ → Option ℕ
translate memory cr3 v =
    let pde = memory (directory_slot cr3 v) in
    let pte = memory (table_slot pde v) in
    if is_present pde && is_present pte then some (frame_of pte + v % 4096) else none

-- An access to the word at a virtual address; without a translation it faults.
unfoldable pub load : Vmm → ℕ → Run ℕ
load m v = elim (translate m.memory m.cr3 v) [ none ↦ fault | some a ↦ ok (m.memory a) ]

unfoldable pub store : Vmm → ℕ → ℕ → Run Vmm
store m v w = elim (translate m.memory m.cr3 v) [
  | none ↦ fault
  | some a ↦ ok (record m { memory = write m.memory a w })
]

-- The field of one bit, `2 ^ i`, is set to a truth value.
unfoldable pub put_bit : ℕ → ℕ → Bool → ℕ
put_bit w zero b = w / 2 * 2 + (if b then 1 else 0)
put_bit w (suc zero) b = w / 4 * 4 + (if b then 2 else 0) + w % 2
put_bit w (suc (suc zero)) b = w / 8 * 8 + (if b then 4 else 0) + w % 4
put_bit w (suc (suc (suc zero))) b = w / 16 * 16 + (if b then 8 else 0) + w % 8
put_bit w (suc (suc (suc (suc zero)))) b = w / 32 * 32 + (if b then 16 else 0) + w % 16
put_bit w (suc (suc (suc (suc (suc zero))))) b = w / 64 * 64 + (if b then 32 else 0) + w % 32
put_bit w (suc (suc (suc (suc (suc (suc zero)))))) b =
    w / 128 * 128 + (if b then 64 else 0) + w % 64
put_bit w (suc (suc (suc (suc (suc (suc (suc i))))))) b =
    w / 256 * 256 + (if b then 128 else 0) + w % 128

-- FlagOn(flags, 2 ^ i), for the flags PAGE_PRESENT to PAGE_SIZE_4MO.
unfoldable pub flag_on : ℕ → ℕ → Bool
flag_on flags zero = flags % 2 == 1
flag_on flags (suc i) = flag_on (flags / 2) i

-- The fields of one bit are set from the flags, one behind the other.
unfoldable pub put_flags : List ℕ → ℕ → ℕ → ℕ
put_flags [] w flags = w
put_flags (i ∷ is) w flags = put_flags is (put_bit w i (flag_on flags i)) flags

-- SetPageDirectoryEntry, as the word that it leaves: bit 7 is pageSize.
unfoldable pub page_directory_entry : ℕ → ℕ → ℕ
page_directory_entry pt_addr flags = put_flags (0 ∷ 1 ∷ 2 ∷ 3 ∷ 4 ∷ 5 ∷ 7 ∷ []) pt_addr flags

-- SetPageTableEntry, as the word that it leaves: bit 6 is written.
unfoldable pub page_table_entry : ℕ → ℕ → ℕ
page_table_entry page_addr flags = put_flags (0 ∷ 1 ∷ 2 ∷ 3 ∷ 4 ∷ 5 ∷ 6 ∷ []) page_addr flags

-- `0xFFFFF000 | PD_OFFSET(v)` and `0xFFC00000 | ((v & 0xFFFFF000) >> 10)`.
abbrev pub pde_address : ℕ → ℕ
pde_address v = 0xffff_f000 + 4 * (v / 0x40_0000)

abbrev pub pte_address : ℕ → ℕ
pte_address v = 0xffc0_0000 + 4 * (v / 4096)

-- GetPhysicalAddressOf
unfoldable pub get_physical_address_of : Vmm → ℕ → Run ℕ
unfolding load
get_physical_address_of m v = load m (pde_address v) >>= λ pde.
    if is_present pde
    then (load m (pte_address v) >>= λ pte.
        ok (if is_present pte then frame_of pte + v % 4096 else 0))
    else ok 0

-- IsVirtualAddressAvailable
unfoldable pub is_virtual_address_available : Vmm → ℕ → Run Bool
unfolding load
is_virtual_address_available m v = load m (pde_address v) >>= λ pde.
    if is_present pde then (load m (pte_address v) >>= λ pte. ok (is_present pte)) else ok false

-- CheckUserVirtualAddressValidity
unfoldable pub check_user_virtual_address_validity : ℕ → Bool
check_user_virtual_address_validity v = not (v == 0) && leb v_user_base_addr v

-- AddPageToKernelPageDirectory; its flags are not used. Outside the kernel's space, and without a
-- page table, the kernel panics.
unfoldable pub add_page_to_kernel_page_directory : ℕ → ℕ → Vmm → Run Vmm
unfolding load store
add_page_to_kernel_page_directory v p m =
    if ltb v_user_base_addr v
    then fault
    else load m (pde_address v) >>= λ pde.
        if is_present pde
        then store m (pte_address v) (page_table_entry p present_writeable)
        else fault

-- PageAlloc: the page of the pool, which the pool maps.
unfoldable pub page_alloc : Vmm → Run ((ℕ × ℕ) × Vmm)
page_alloc m =
    let page = (PagePool.allocate m.pool).0 in
    let taken = record m { pool = (PagePool.allocate m.pool).1 } in
    elim m.pool.avail_page_list [
      | none ↦ ok (page, taken)
      | some i ↦
          add_page_to_kernel_page_directory page.1 page.0 taken >>= λ mapped. ok (page, mapped)
    ]

-- CleanPageTable, for the words left.
unfoldable pub clean_page_table : ℕ → ℕ → Vmm → Run Vmm
unfolding store
clean_page_table zero pt m = ok m
clean_page_table (suc n) pt m = store m pt 0 >>= λ cleaned. clean_page_table n (add32 pt 4) cleaned

-- The part of AddPageToPageDirectory that gives the directory a new table.
unfoldable pub add_page_table : ℕ → ℕ → Vmm → Run Vmm
unfolding page_alloc store clean_page_table
add_page_table v flags m = page_alloc m >>= λ (page, taken).
    store taken (pde_address v) (page_directory_entry page.0 (bit_or present_writeable flags))
    >>= clean_page_table nb_pages_per_table page.1

-- AddPageToPageDirectory; the directory is the one in cr3.
unfoldable pub add_page_to_page_directory : ℕ → ℕ → ℕ → Vmm → Run Vmm
unfolding load store
add_page_to_page_directory v p flags m = load m (pde_address v) >>= λ pde.
    (if is_present pde then ok m else add_page_table v flags m) >>= λ ready.
    store ready (pte_address v) (page_table_entry p flags)

-- GetPageTableFromVirtualAddress and SetPageTableFromVirtualAddress
unfoldable pub get_page_table_from_virtual_address : ℕ → Vmm → Run ℕ
unfolding load
get_page_table_from_virtual_address v m =
    load m (pde_address v) >>= λ pde. if is_present pde then load m (pte_address v) else fault

unfoldable pub set_page_table_from_virtual_address : ℕ → ℕ → Vmm → Run Vmm
unfolding load store
set_page_table_from_virtual_address v entry m = load m (pde_address v) >>= λ pde.
    if is_present pde then store m (pte_address v) entry else fault

-- SetCurrentPageDirectory, SaveCurrentMemoryMapping and RestoreMemoryMapping
abbrev pub set_current_page_directory : ℕ → Vmm → Vmm
set_current_page_directory pd m = record m { cr3 = pd }

unfoldable pub save_current_memory_mapping : Vmm → Vmm
save_current_memory_mapping m = record m { saved = m.cr3 }

unfoldable pub restore_memory_mapping : Vmm → Vmm
restore_memory_mapping m = if m.saved == null then m else record m { cr3 = m.saved; saved = null }

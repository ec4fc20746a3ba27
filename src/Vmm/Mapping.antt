-- ===== src/Vmm/Mapping.antt =====
-- AddPageToPageDirectory: the page is mapped, and no other address is touched.
use lt_micros.Base.{
  ℕ, ◌+◌, ◌*◌, ◌/◌, ◌%◌, ◌≤◌, ◌<◌, ◌≡◌, ◌≢◌, refl, sym, ap, none, some, true, arith, ◌==◌,
  if◌then◌else◌, Bool-cases, inl, inr,
}
use lt_micros.Base.Status.{ok}
use lt_micros.Vmm.{
  Vmm, Memory, translate, store, write, is_present, frame_of, flag_on, directory_slot, table_slot,
  pte_address, page_table_entry, add_page_to_page_directory, add_page_to_kernel_page_directory,
  v_user_base_addr, present_writeable,
}
use lt_micros.Vmm.Entries.{page_table_entry-frame, page_table_entry-present}
use lt_micros.Vmm.Walk.{IsRecursive, translate-pte_address, load-pde_address}

-- The directory entry of a virtual address.
abbrev pub entry_of : Memory → ℕ → ℕ → ℕ
entry_of memory cr3 v = memory (directory_slot cr3 v)

-- The tables of a directory: below its last entry each table stands in a page of its own, and none
-- in that of the directory.
pub record HasTables (memory : Memory) (cr3 : ℕ) : Type 0 where
  pub recursive : IsRecursive memory cr3
  pub apart :
      (v : ℕ)
      → v < 0xffc0_0000
      → is_present (entry_of memory cr3 v) ≡ true
      → frame_of (entry_of memory cr3 v) ≢ cr3
  pub distinct :
      (v u : ℕ)
      → v < 0xffc0_0000
      → u < 0xffc0_0000
      → v / 0x40_0000 ≢ u / 0x40_0000
      → is_present (entry_of memory cr3 v) ≡ true
      → is_present (entry_of memory cr3 u) ≡ true
      → frame_of (entry_of memory cr3 v) ≢ frame_of (entry_of memory cr3 u)

module _ (memory : Memory) (cr3 v entry : ℕ) (t : HasTables memory cr3) (low : v < 0xffc0_0000)
    (p : is_present (entry_of memory cr3 v) ≡ true) where
  abbrev written : Memory
  written = write memory (table_slot (entry_of memory cr3 v) v) entry

  -- The write to the table of `v` leaves the directory as it is.
  directory_kept : (u : ℕ) → u < 0x1_0000_0000 → entry_of written cr3 u ≡ entry_of memory cr3 u
  unfolding write
  directory_kept u small = ground (arith, t.apart v low p, t.recursive.aligned)

  -- The entry of `v` in its table is the one written.
  table_written : written (table_slot (entry_of written cr3 v) v) ≡ entry
  unfolding write
  table_written = rw (directory_kept v (omega arith)) (ground arith)

  translate_self :
      translate written cr3 v
      ≡ (if is_present entry then some (frame_of entry + v % 4096) else none)
  unfolding translate
  translate_self = ground (arith, directory_kept v (omega arith), table_written, p)

  -- The entry of an address of another page is where it was, and not the one written.
  table_kept :
      (u : ℕ)
      → u < 0xffc0_0000
      → u / 4096 ≢ v / 4096
      → is_present (entry_of memory cr3 u) ≡ true
      → written (table_slot (entry_of memory cr3 u) u)
        ≡ memory (table_slot (entry_of memory cr3 u) u)
  unfolding write
  table_kept u ulow other q = elim (Bool-cases (u / 0x40_0000 == v / 0x40_0000)) [
    | inl same ↦
        let e : entry_of memory cr3 u ≡ entry_of memory cr3 v =
          ap (λ d. memory (cr3 + 4 * d)) (ground arith) in
        ground (arith, e)
    | inr differ ↦ ground (arith, t.distinct v u low ulow (ground arith) p q)
  ]

  translate_other :
      (u : ℕ)
      → u < 0xffc0_0000
      → u / 4096 ≢ v / 4096
      → translate written cr3 u ≡ translate memory cr3 u
  unfolding translate
  translate_other u ulow other = elim (Bool-cases (is_present (entry_of memory cr3 u))) [
    | inl q ↦ ground (arith, directory_kept u (omega arith), table_kept u ulow other q, q)
    | inr q ↦ ground (arith, directory_kept u (omega arith), q)
  ]

  -- The tables are still such.
  HasTables-written : HasTables written cr3
  HasTables-written =
      let last : written (cr3 + 4 * 1023) ≡ memory (cr3 + 4 * 1023) =
        directory_kept 0xffc0_0000 (omega arith) in
      record {
        recursive = record {
          aligned = t.recursive.aligned;
          present = rw last t.recursive.present;
          itself = rw last t.recursive.itself;
        };
        apart = λ u ulow q.
            let e = directory_kept u (omega arith) in rw e (t.apart u ulow (rw (sym e) q));
        distinct = λ u w ulow wlow differ q r.
            let e = directory_kept u (omega arith) in
            let f = directory_kept w (omega arith) in
            rw e (rw f (t.distinct u w ulow wlow differ (rw (sym e) q) (rw (sym f) r)));
      }

-- The page of `v` is mapped to that of `p`, if the flags say so, and no other page has changed.
pub record Maps (m : Vmm) (v p flags : ℕ) (after : Vmm) : Type 0 where
  pub mapped :
      translate after.memory m.cr3 v
      ≡ (if flag_on flags 0 then some (frame_of p + v % 4096) else none)
  pub others :
      (u : ℕ)
      → u < 0xffc0_0000
      → u / 4096 ≢ v / 4096
      → translate after.memory m.cr3 u ≡ translate m.memory m.cr3 u
  pub tables : HasTables after.memory m.cr3
  pub same_cr3 : after.cr3 ≡ m.cr3
  pub same_pool : after.pool ≡ m.pool

module _ (m : Vmm) (v p flags : ℕ) (t : HasTables m.memory m.cr3) (low : v < 0xffc0_0000)
    (has_table : is_present (entry_of m.memory m.cr3 v) ≡ true) where
  mapped_memory : Vmm
  mapped_memory = record m {
    memory = written m.memory m.cr3 v (page_table_entry p flags) t low has_table;
  }

  store-pte_address : store m (pte_address v) (page_table_entry p flags) ≡ ok mapped_memory
  unfolding store mapped_memory
  store-pte_address = ground (
    arith,
    translate-pte_address m.memory m.cr3 v t.recursive (omega arith) (entry_of m.memory m.cr3 v)
        refl has_table,
  )

  mapped_memory-Maps : Maps m v p flags mapped_memory
  unfolding mapped_memory
  mapped_memory-Maps = record {
    mapped = ground (
      arith,
      translate_self m.memory m.cr3 v (page_table_entry p flags) t low has_table,
      page_table_entry-frame p flags,
      page_table_entry-present p flags,
    );
    others = translate_other m.memory m.cr3 v (page_table_entry p flags) t low has_table;
    tables = HasTables-written m.memory m.cr3 v (page_table_entry p flags) t low has_table;
    same_cr3 = refl;
    same_pool = refl;
  }

  -- AddPageToPageDirectory on an address whose table is there maps its page, if the flags have
  -- PAGE_PRESENT, and else unmaps it; every other page below the tables is mapped as it was.
  pub add_page_to_page_directory-Maps :
      (after : Vmm) × ((add_page_to_page_directory v p flags m ≡ ok after) × Maps m v p flags after)
  unfolding add_page_to_page_directory
  add_page_to_page_directory-Maps = (
    mapped_memory,
    (
      ground (arith, load-pde_address m v t.recursive (omega arith), has_table, store-pte_address),
      mapped_memory-Maps,
    ),
  )

-- AddPageToKernelPageDirectory maps the page of an address up to the base of user space, whatever
-- the flags, and every other page below the tables is mapped as it was.
pub add_page_to_kernel_page_directory-Maps :
    (m : Vmm) (v p : ℕ)
    → HasTables m.memory m.cr3
    → v ≤ v_user_base_addr
    → is_present (entry_of m.memory m.cr3 v) ≡ true
    → (after : Vmm) × ((add_page_to_kernel_page_directory v p m ≡ ok after)
        × Maps m v p present_writeable after)
unfolding add_page_to_kernel_page_directory
add_page_to_kernel_page_directory-Maps m v p t low has_table =
    let small : v < 0xffc0_0000 = omega arith in
    (
      mapped_memory m v p present_writeable t small has_table,
      (
        ground (
          arith,
          load-pde_address m v t.recursive (omega arith),
          has_table,
          store-pte_address m v p present_writeable t small has_table,
        ),
        mapped_memory-Maps m v p present_writeable t small has_table,
      ),
    )

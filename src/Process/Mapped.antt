-- ===== src/Process/Mapped.antt =====
-- ResolvePageFault of kernel/arch/x86/Process.cpp over the page tables of kernel/arch/x86/Vmm.cpp.
use lt_micros.Base.{ℕ, ◌+◌, ◌%◌, ◌/◌, ◌<◌, ◌≡◌, ◌≢◌, refl, ◌∙◌, some, true, false, arith}
use lt_micros.Base.Words.{null}
use lt_micros.Base.Status.{ok}
use lt_micros.Pmm
use lt_micros.Vad.Lookup.{Holder}
use lt_micros.Vad.Operations.{flags_present}
use lt_micros.Vad.{look_for_vad_from_address}
use lt_micros.Vmm.{Vmm, translate, is_present, flag_on}
use lt_micros.Vmm.Machine.{tables}
use lt_micros.Vmm.Mapping.{HasTables, entry_of, add_page_to_page_directory-Maps}
use lt_micros.Process.{Process, resolve_page_fault}
use lt_micros.Process.Faults.{resolve_in_use}

-- The machine behind GetFreePage, with the directory of the process.
abbrev pub switched : Process → Vmm → Vmm
switched p m = record m {
  pool = record m.pool { bitmap = (Pmm.get_free_page m.pool.bitmap).1 };
  cr3 = p.page_directory;
}

-- What the fault left: the address leads into the page, all else in the directory leads where it did,
-- and the directory that was current is so again.
pub record Served (address page : ℕ) (p : Process) (m after : Vmm) : Type 0 where
  pub leads : translate after.memory p.page_directory address ≡ some (page + address % 4096)
  pub others :
      (u : ℕ)
      → u < 0xffc0_0000
      → u / 4096 ≢ address / 4096
      → translate after.memory p.page_directory u ≡ translate m.memory p.page_directory u
  pub tables : HasTables after.memory p.page_directory
  pub same_cr3 : after.cr3 ≡ m.cr3
  pub pool : after.pool ≡ record m.pool { bitmap = (Pmm.get_free_page m.pool.bitmap).1 }

module _ (address i page : ℕ) (p : Process) (m : Vmm) (real : address ≢ null)
    (low : address < 0xffc0_0000) (found : look_for_vad_from_address address p.vads ≡ ok i)
    (h : Holder address p.vads i) (used : h.vad.free ≡ false)
    (taken : (Pmm.get_free_page m.pool.bitmap).0 ≡ page) (nonzero : page ≢ null)
    (aligned : page % 4096 ≡ 0) (t : HasTables m.memory p.page_directory)
    (has_table : is_present (entry_of m.memory p.page_directory address) ≡ true) where
  -- A page fault on a descriptor in use, whose page table is there, ends with the page that GetFreePage
  -- answered mapped at the address for the process, and no other page below the tables changed.
  pub resolve_page_fault-Served :
      (after : Vmm) × ((resolve_page_fault tables address p (ok m) ≡ (ok tt, ok after))
        × Served address page p m after)
  unfolding flag_on
  resolve_page_fault-Served =
      let (mapped, (e, r)) =
        add_page_to_page_directory-Maps (switched p m) address page flags_present t low has_table in
      (
        record mapped { cr3 = m.cr3 },
        (
          resolve_in_use tables address p (ok m) real i found h used (ground (arith, taken))
              ∙ ground (arith, e, taken),
          record {
            leads = ground (arith, r.mapped);
            others = r.others;
            tables = r.tables;
            same_cr3 = refl;
            pool = r.same_pool;
          },
        ),
      )

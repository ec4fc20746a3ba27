-- ===== src/Vmm/Machine.antt =====
-- The machine of kernel/arch/x86/Vmm.cpp as the memory code asks for it: gPmm.GetFreePage on the bitmap
-- that the page pool takes from, and AddPageToPageDirectory on the page tables. Behind a fault nothing
-- runs.
use lt_micros.Base.{ℕ}
use lt_micros.Base.Status.{Run, ok, ◌>>=◌}
use lt_micros.Mapper.{Mapper}
use lt_micros.Pmm
use lt_micros.Vmm.{Vmm, add_page_to_page_directory, set_current_page_directory}

abbrev pub free_page : Run Vmm → ℕ × Run Vmm
free_page (ok m) =
    let page = Pmm.get_free_page m.pool.bitmap in
    (page.0, ok (record m { pool = record m.pool { bitmap = page.1 } }))
free_page m = (0, m)

abbrev pub directory_in : Run Vmm → ℕ
directory_in (ok m) = m.cr3
directory_in m = 0

abbrev pub tables : Mapper
tables = record {
  Machine = Run Vmm;
  get_free_page = free_page;
  add_page = λ v p flags directory m. m >>= add_page_to_page_directory v p flags;
  current_directory = directory_in;
  set_directory = λ d m. m >>= λ vmm. ok (set_current_page_directory d vmm);
}

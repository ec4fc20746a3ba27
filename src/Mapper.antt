-- ===== src/Mapper.antt =====
-- What the memory code asks of the machine: gPmm.GetFreePage, Vmm::AddPageToPageDirectory, and the
-- register that holds the page directory. The clients take it as a parameter.
use lt_micros.Base.{ℕ, List, ◌∷◌}
use lt_micros.Pmm

pub record Mapper : Type 1 where
  pub Machine : Type 0
  pub get_free_page : Machine → ℕ × Machine
  pub add_page : (v_addr p_addr flags directory : ℕ) → Machine → Machine
  pub current_directory : Machine → ℕ
  pub set_directory : ℕ → Machine → Machine

-- A call of AddPageToPageDirectory, with the directory that was current.
pub record Mapping : Type 0 where
  pub v_addr : ℕ
  pub p_addr : ℕ
  pub flags : ℕ
  pub directory : ℕ
  pub current : ℕ

-- The machine as the allocator's bitmap, the current directory and the calls made, newest first.
pub record Recorded : Type 0 where
  pub bitmap : List ℕ
  pub current : ℕ
  pub mapped : List Mapping

-- The physical allocator of this kernel, with the mapping calls recorded.
abbrev pub recorder : Mapper
recorder = record {
  Machine = Recorded;
  get_free_page = λ m. let (p, bm) = Pmm.get_free_page m.bitmap in (p, record m { bitmap = bm });
  add_page = λ v p f d m. record m {
    mapped =
        record { v_addr = v; p_addr = p; flags = f; directory = d; current = m.current } ∷ m.mapped;
  };
  current_directory = λ m. m.current;
  set_directory = λ d m. record m { current = d };
}

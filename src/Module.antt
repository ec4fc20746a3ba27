-- ===== src/Module.antt =====
-- kernel/module/Elf.cpp and Module.cpp: the loading of a program from an ELF file in memory. The file is
-- the fields of its headers that are read; what Process::MemorySetAndCopy does to the new address space
-- is the list of its calls.
use lt_micros.Base.{
  ℕ, ◌≡◌, refl, ap, List, [], ◌∷◌, Bool, true, false, ◌&&◌, if◌then◌else◌, ◌==◌, length, ◌∙◌,
  Bool-cases, inl, inr,
}
use lt_micros.Base.Words.{null, add32}
use lt_micros.Base.Status.{null_parameter, Run, ok, err, fault, running}
use lt_micros.Mapper.{Mapper}
use lt_micros.Process.{Process, allocate_memory_at_address}

-- The first four bytes of `ident`, `entry`, `phoff` and the program header table.
pub record Section : Type 0 where
  pub offset : ℕ
  pub vaddr : ℕ
  pub mem_size : ℕ

pub record ElfHeader : Type 0 where
  pub ident0 : ℕ
  pub ident1 : ℕ
  pub ident2 : ℕ
  pub ident3 : ℕ
  pub entry : ℕ
  pub phoff : ℕ
  pub sections : List Section

-- Elf::ElfCheckIdent
unfoldable pub elf_check_ident : ElfHeader → Bool
elf_check_ident h = h.ident0 == 0x7f && h.ident1 == b'E' && h.ident2 == b'L' && h.ident3 == b'F'

-- Elf::ElfInit with a place for the result: the address of the program header table. That phoff is 0 is
-- noticed, and then forgotten.
unfoldable pub elf_init : (file : ℕ) → ElfHeader → Run ℕ
elf_init file h = if file == null then err null_parameter else ok (add32 file h.phoff)

-- A call of MemorySetAndCopy, with the byte 0.
pub record Copy : Type 0 where
  pub source : ℕ
  pub dest : ℕ
  pub size : ℕ

abbrev pub copy_of : (file : ℕ) → Section → Copy
copy_of file s = record { source = add32 file s.offset; dest = s.vaddr; size = s.mem_size }

module _ (env : Mapper) where
  open env use {Machine}

  -- What the loop of _MapElfInProcess leaves: its status, the copies in order, the process and the
  -- machine.
  pub record Mapped : Type 0 where
    pub result : Run (Unit {0})
    pub copies : List Copy
    pub process : Process
    pub machine : Machine

  abbrev ended : Run (Unit {0}) → Process → Machine → Mapped
  ended r p m = record { result = r; copies = []; process = p; machine = m }

  abbrev copied_first : Copy → Mapped → Mapped
  copied_first c o = record o { copies = c ∷ o.copies }

  -- A section, by what the allocation of its memory gave, and the rest of the loop; MemorySetAndCopy
  -- looks at its source.
  unfoldable pub copied : (file : ℕ) → Section → Run ℕ → Process → Machine → Mapped → Mapped
  copied file s (ok base) p m rest =
      if add32 file s.offset == null then rest else copied_first (copy_of file s) rest
  copied file s (err e) p m rest = ended (err e) p m
  copied file s fault p m rest = ended fault p m
  copied file s running p m rest = ended running p m

  -- The loop of _MapElfInProcess. `first` and `then_split` say, by the sections left, whether the splits
  -- of the address space get memory.
  unfoldable pub map_sections :
      (fuel file : ℕ) (first then_split : ℕ → Bool) → List Section → Process → Machine → Mapped
  unfolding copied
  map_sections fuel file first then_split [] p m = ended (ok tt) p m
  map_sections fuel file first then_split (s ∷ ss) p m =
      let n = length ss in
      let a =
        allocate_memory_at_address env fuel (first n) (then_split n) s.vaddr true s.mem_size p m in
      let rest = map_sections fuel file first then_split ss a.1 a.2 in
      if s.vaddr == null then ended (ok tt) p m else copied file s a.0 a.1 a.2 rest

-- The sections that a file asks to be loaded: those in front of the first without an address.
abbrev pub loadable : List Section → List Section
loadable [] = []
loadable (s ∷ ss) = if s.vaddr == null then [] else s ∷ loadable ss

abbrev pub copies_of : ℕ → List Section → List Copy
copies_of file [] = []
copies_of file (s ∷ ss) = copy_of file s ∷ copies_of file ss

-- No section starts at the address 0 of the kernel.
abbrev pub AllPlaced : ℕ → List Section → Type 0
AllPlaced file [] = Unit {0}
AllPlaced file (s ∷ ss) = ((add32 file s.offset == null) ≡ false) × AllPlaced file ss

module _ (env : Mapper) where
  open env use {Machine}

  copied-result :
      (file : ℕ) (s : Section) (a : Run ℕ) (p : Process) (m : Machine) (o : Mapped env)
      → (add32 file s.offset == null) ≡ false
      → (copied env file s a p m o).result ≡ ok tt
      → (o.result ≡ ok tt) × ((copied env file s a p m o).copies ≡ copy_of file s ∷ o.copies)
  unfolding copied
  copied-result file s (ok base) p m o placed = rw placed (λ h. (h, refl))
  copied-result file s (err e) p m o placed = λ h. absurd cc
  copied-result file s fault p m o placed = λ h. absurd cc
  copied-result file s running p m o placed = λ h. absurd cc

  -- When _MapElfInProcess succeeds, it has copied exactly the sections in front of the first one without
  -- an address, in their order, each to its address, if none of them lies in memory at the address 0.
  pub map_sections-copies_of :
      (fuel file : ℕ) (first then_split : ℕ → Bool) (ss : List Section) (p : Process) (m : Machine)
      → AllPlaced file (loadable ss)
      → (map_sections env fuel file first then_split ss p m).result ≡ ok tt
      → (map_sections env fuel file first then_split ss p m).copies ≡ copies_of file (loadable ss)
  unfolding map_sections
  map_sections-copies_of fuel file first then_split [] p m = λ placed h. refl
  map_sections-copies_of fuel file first then_split (s ∷ ss) p m =
      elim (Bool-cases (s.vaddr == null)) [
        | inl ends ↦ rw ends (λ placed h. refl)
        | inr placed_at ↦ rw placed_at (λ placed h.
            let a =
              allocate_memory_at_address env fuel (first (length ss)) (then_split (length ss))
                s.vaddr true s.mem_size p m in
            let o = copied-result file s a.0 a.1 a.2 _ placed.0 h in
            o.1
            ∙ ap (λ cs. copy_of file s ∷ cs)
                (map_sections-copies_of fuel file first then_split ss a.1 a.2 placed.1 o.0))
      ]

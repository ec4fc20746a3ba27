-- ===== src/Vmm/Walk.antt =====
-- The tables seen through the last entry of the directory.
use lt_micros.Base.{
  ℕ, ◌+◌, ◌*◌, ◌/◌, ◌%◌, ◌<◌, ◌≡◌, refl, ap, ◌∙◌, none, some, true, false, arith, Bool-cases, inl,
  inr,
}
use lt_micros.Base.Status.{ok}
use lt_micros.Vmm.{
  Vmm, Memory, translate, load, is_present, frame_of, directory_slot, table_slot, pde_address,
  pte_address, get_physical_address_of, is_virtual_address_available,
}

-- The last entry of the directory leads back to the directory.
pub record IsRecursive (memory : Memory) (cr3 : ℕ) : Type 0 where
  pub aligned : cr3 % 4096 ≡ 0
  pub present : is_present (memory (cr3 + 4 * 1023)) ≡ true
  pub itself : frame_of (memory (cr3 + 4 * 1023)) ≡ cr3

translate-last :
    (memory : Memory) (cr3 v pde pte : ℕ)
    → v / 0x40_0000 ≡ 1023
    → memory (cr3 + 4 * 1023) ≡ pde
    → is_present pde ≡ true
    → memory (frame_of pde + 4 * (v / 4096 % 1024)) ≡ pte
    → is_present pte ≡ true
    → translate memory cr3 v ≡ some (frame_of pte + v % 4096)
unfolding translate
translate-last memory cr3 v pde pte last d p t q = rw last (rw d (rw p (rw t (rw q refl))))

module _ (memory : Memory) (cr3 v : ℕ) (r : IsRecursive memory cr3)
    (small : v < 0x1_0000_0000) where
  pub translate-pde_address : translate memory cr3 (pde_address v) ≡ some (directory_slot cr3 v)
  translate-pde_address =
      let slot : frame_of (memory (cr3 + 4 * 1023)) + 4 * (pde_address v / 4096 % 1024)
          ≡ cr3 + 4 * 1023 =
        omega (arith, r.itself) in
      translate-last memory cr3 (pde_address v) (memory (cr3 + 4 * 1023)) (memory (cr3 + 4 * 1023))
        (omega arith) refl r.present (ap memory slot) r.present
      ∙ ap some (omega (arith, r.itself))

  pub translate-pte_address :
      (pde : ℕ)
      → memory (directory_slot cr3 v) ≡ pde
      → is_present pde ≡ true
      → translate memory cr3 (pte_address v) ≡ some (table_slot pde v)
  translate-pte_address pde d p =
      let slot : frame_of (memory (cr3 + 4 * 1023)) + 4 * (pte_address v / 4096 % 1024)
          ≡ directory_slot cr3 v =
        omega (arith, r.itself) in
      translate-last memory cr3 (pte_address v) (memory (cr3 + 4 * 1023)) pde (omega arith) refl
        r.present (ap memory slot ∙ d) p
      ∙ ap some (omega arith)

module _ (m : Vmm) (v : ℕ) (r : IsRecursive m.memory m.cr3) (small : v < 0x1_0000_0000) where
  pub load-pde_address : load m (pde_address v) ≡ ok (m.memory (directory_slot m.cr3 v))
  unfolding load
  load-pde_address = ground (arith, translate-pde_address m.memory m.cr3 v r small)

  pub load-pte_address :
      is_present (m.memory (directory_slot m.cr3 v)) ≡ true
      → load m (pte_address v) ≡ ok (m.memory (table_slot (m.memory (directory_slot m.cr3 v)) v))
  unfolding load
  load-pte_address p = ground (
    arith,
    translate-pte_address m.memory m.cr3 v r small (m.memory (directory_slot m.cr3 v)) refl p,
  )

  -- GetPhysicalAddressOf answers the physical address that the tables give, and 0 where they give
  -- none.
  pub get_physical_address_of-translate :
      get_physical_address_of m v ≡ ok (elim (translate m.memory m.cr3 v) [ none ↦ 0 | some a ↦ a ])
  unfolding get_physical_address_of translate
  get_physical_address_of-translate =
      elim (Bool-cases (is_present (m.memory (directory_slot m.cr3 v)))) [
        | inl p ↦ ground (arith, load-pde_address, load-pte_address p, p)
        | inr p ↦ ground (arith, load-pde_address, p)
      ]

  -- IsVirtualAddressAvailable answers whether the tables give a physical address.
  pub is_virtual_address_available-translate :
      is_virtual_address_available m v
      ≡ ok (elim (translate m.memory m.cr3 v) [ none ↦ false | some a ↦ true ])
  unfolding is_virtual_address_available translate
  is_virtual_address_available-translate =
      elim (Bool-cases (is_present (m.memory (directory_slot m.cr3 v)))) [
        | inl p ↦ ground (arith, load-pde_address, load-pte_address p, p)
        | inr p ↦ ground (arith, load-pde_address, p)
      ]

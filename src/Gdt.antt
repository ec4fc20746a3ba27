-- ===== src/Gdt.antt =====
-- kernel/arch/x86/Gdt.cpp and Gdt.hpp: the table of segment descriptors. A field of a descriptor is its
-- number. What the processor is told, with lgdt and ltr, is left out.
use lt_micros.Base.{
  ℕ, ◌+◌, ◌-◌, ◌*◌, ◌/◌, ◌%◌, ◌^◌, ◌<◌, ◌≡◌, refl, List, [], ◌∷◌, if◌then◌else◌, leb, arith,
}

pub record GdtDescriptor : Type 0 where
  pub limit0_15 : ℕ
  pub base0_15 : ℕ
  pub base16_23 : ℕ
  pub access : ℕ
  pub limit16_19 : ℕ
  pub flags : ℕ
  pub base24_31 : ℕ

-- GDT_SIZE and sizeof(GdtDescriptor)
abbrev pub gdt_size : ℕ
gdt_size = 6

abbrev pub descriptor_size : ℕ
descriptor_size = 8

-- sizeof(Tss)
abbrev pub tss_size : ℕ
tss_size = 104

-- Gdt::InitDescriptor
unfoldable pub init_descriptor : (base limit access flags : ℕ) → GdtDescriptor
init_descriptor base limit access flags = record {
  limit0_15 = limit % 65536;
  base0_15 = base % 65536;
  base16_23 = base / 65536 % 256;
  access = access;
  limit16_19 = limit / 65536 % 16;
  flags = flags % 16;
  base24_31 = base / 16777216 % 256;
}

-- The descriptors that Gdt::Init writes; `tss` is the address of gTss.
unfoldable pub init : (tss : ℕ) → List GdtDescriptor
unfolding init_descriptor
init tss =
    init_descriptor 0 0 0 0
    ∷ init_descriptor 0 0xfffff 0x9b 0x0d
    ∷ init_descriptor 0 0xfffff 0x93 0x0d
    ∷ init_descriptor 0 0xfffff 0xff 0x0f
    ∷ init_descriptor 0 0xfffff 0xf3 0x0f
    ∷ init_descriptor tss tss_size 0xe9 0
    ∷ []

-- GdtInfo::limit
abbrev pub info_limit : ℕ
info_limit = gdt_size * descriptor_size

-- Gdt::GetDescriptor: the address of a descriptor, the table being at 0.
unfoldable pub get_descriptor : (selector : ℕ) → ℕ
get_descriptor selector = if leb selector ((gdt_size - 1) * descriptor_size) then selector else 0

-- Gdt::GetBaseAddrFromDescriptor; the fields share no bit.
unfoldable pub get_base_addr_from_descriptor : GdtDescriptor → ℕ
get_base_addr_from_descriptor d = d.base0_15 + d.base16_23 * 65536 + d.base24_31 * 16777216

-- The base and the limit that Gdt::PrintDescriptor puts together.
unfoldable pub printed_limit : GdtDescriptor → ℕ
printed_limit d = d.limit16_19 * 65536 + d.limit0_15

-- The descriptor that InitDescriptor writes holds what it was given: the base that GetBaseAddrFromDescriptor
-- reads back, the limit, the access byte and the flags, as far as these have 20, 8 and 4 bits.
pub init_descriptor-get_base :
    (base limit access flags : ℕ)
    → base < 2 ^ 32
    → limit < 2 ^ 20
    → flags < 2 ^ 4
    → let d = init_descriptor base limit access flags in
      (get_base_addr_from_descriptor d ≡ base)
      × (printed_limit d ≡ limit)
      × (d.access ≡ access)
      × (d.flags ≡ flags)
unfolding init_descriptor get_base_addr_from_descriptor printed_limit
init_descriptor-get_base base limit access flags hb hl hf =
    (omega arith, omega arith, refl, omega arith)

-- ===== src/Base/Words.antt =====
-- 32-bit unsigned arithmetic (`unsigned int`, `u32` and pointers of the kernel).
use Prim.Native.Nat.{ℕ, ◌+◌, ◌-◌, ◌*◌, ◌%◌, ◌^◌}

abbrev pub u32_mod : ℕ
u32_mod = 2 ^ 32

abbrev pub add32 : ℕ → ℕ → ℕ
add32 a b = (a + b) % u32_mod

abbrev pub sub32 : ℕ → ℕ → ℕ
sub32 a b = (a + u32_mod - b) % u32_mod

abbrev pub mul32 : ℕ → ℕ → ℕ
mul32 a b = (a * b) % u32_mod

-- kernel/arch/x86/MemCommon.hpp: PAGE_SIZE
abbrev pub page_size : ℕ
page_size = 4096

-- The null pointer.
abbrev pub null : ℕ
null = 0

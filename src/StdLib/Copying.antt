-- ===== src/StdLib/Copying.antt =====
-- What StrLen, StrCpy, MemCopy and MemSet leave in memory.
use lt_micros.Base.{
  ℕ, zero, suc, ◌+◌, ◌-◌, ◌<◌, ◌≤◌, ◌≡◌, ◌≢◌, ◌∙◌, ◌⊎◌, List, [], ◌∷◌, arith, length, ltb, leb,
  ◌&&◌, if◌then◌else◌,
}
use lt_micros.Base.Status.{ok}
use lt_micros.StdLib.{
  Memory, write, str_len, str_len_from, str_cpy, str_cpy_from, mem_copy, mem_set,
}

-- At `a` stands the string `s` with its terminator.
abbrev pub Holds : Memory → ℕ → List ℕ → Type 0
Holds mem a [] = mem a ≡ 0
Holds mem a (c ∷ s) = (mem a ≡ c) × (c ≢ 0) × Holds mem (a + 1) s

str_len_from-length :
    (fuel : ℕ) (mem : Memory) (a n : ℕ) (s : List ℕ)
    → Holds mem a s
    → length s < fuel
    → str_len_from fuel mem a n ≡ ok (n + length s)
unfolding str_len_from
str_len_from-length zero mem a n s h f = absurd (omega arith)
str_len_from-length (suc fuel) mem a n [] h f = ground arith
str_len_from-length (suc fuel) mem a n (c ∷ s) h f =
    ground (arith, str_len_from-length fuel mem (a + 1) (n + 1) s h.2)

-- With fuel beyond the length, StrLen returns the length of the string.
pub str_len-length :
    (fuel : ℕ) (mem : Memory) (a : ℕ) (s : List ℕ)
    → a ≢ 0
    → Holds mem a s
    → length s < fuel
    → str_len fuel mem a ≡ ok (length s)
unfolding str_len
str_len-length fuel mem a s real h f = ground (arith, str_len_from-length fuel mem a 0 s h f)

write-Holds :
    (mem : Memory) (a p v : ℕ) (s : List ℕ)
    → Holds mem a s
    → (p < a) ⊎ (a + length s < p)
    → Holds (write mem p v) a s
unfolding write
write-Holds mem a p v [] h apart = ground arith
write-Holds mem a p v (c ∷ s) h apart =
    (ground arith, h.1, write-Holds mem (a + 1) p v s h.2 (ground arith))

-- `m` has the string `s` at `dst`, and agrees with `mem` outside it.
pub record Copied (mem : Memory) (dst : ℕ) (s : List ℕ) (m : Memory) : Type 0 where
  pub holds : Holds m dst s
  pub elsewhere : (b : ℕ) → (b < dst) ⊎ (dst + length s < b) → m b ≡ mem b

Copied-nil : (mem : Memory) (dst : ℕ) → Copied mem dst [] (write mem dst 0)
unfolding write
Copied-nil mem dst = record { holds = ground arith; elsewhere = λ b o. ground arith }

Copied-cons :
    (mem m : Memory) (dst v c : ℕ) (s : List ℕ)
    → v ≡ c
    → c ≢ 0
    → Copied (write mem dst v) (dst + 1) s m
    → Copied mem dst (c ∷ s) m
unfolding write
Copied-cons mem m dst v c s e real w = record {
  holds = (ground (arith, w.elsewhere dst), real, w.holds);
  elsewhere = λ b o. ground (arith, w.elsewhere b);
}

str_cpy_from-Copied :
    (fuel : ℕ) (mem : Memory) (src dst : ℕ) (s : List ℕ)
    → Holds mem src s
    → length s < fuel
    → (dst + length s < src) ⊎ (src + length s < dst)
    → (m : Memory) × (str_cpy_from fuel mem src dst ≡ ok m) × Copied mem dst s m
unfolding str_cpy_from
str_cpy_from-Copied zero mem src dst s h f apart = absurd (omega arith)
str_cpy_from-Copied (suc fuel) mem src dst [] h f apart =
    (write mem dst 0, ground arith, Copied-nil mem dst)
str_cpy_from-Copied (suc fuel) mem src dst (c ∷ s) h f apart =
    let (m, e, w) =
      str_cpy_from-Copied fuel (write mem dst (mem src)) (src + 1) (dst + 1) s
        (write-Holds mem (src + 1) dst (mem src) s h.2 (omega arith)) (omega arith) (omega arith) in
    (m, ground arith, Copied-cons mem m dst (mem src) c s h.0 h.1 w)

-- Where source and target do not overlap, StrCpy copies the string with its terminator and changes
-- nothing else.
pub str_cpy-Copied :
    (fuel : ℕ) (mem : Memory) (src dst : ℕ) (s : List ℕ)
    → src ≢ 0
    → dst ≢ 0
    → Holds mem src s
    → length s < fuel
    → (dst + length s < src) ⊎ (src + length s < dst)
    → (m : Memory) × (str_cpy fuel mem src dst ≡ ok m) × Copied mem dst s m
unfolding str_cpy
str_cpy-Copied fuel mem src dst s rs rd h f apart =
    let (m, e, w) = str_cpy_from-Copied fuel mem src dst s h f apart in (m, ground arith, w)

mem_copy_step :
    (mem : Memory) (src dst size b : ℕ)
    → (dst ≤ src) ⊎ (src + suc size ≤ dst)
    → (if leb (dst + 1) b && ltb b (dst + 1 + size)
        then write mem dst (mem src) (src + 1 + (b - (dst + 1)))
        else write mem dst (mem src) b)
      ≡ (if leb dst b && ltb b (dst + suc size) then mem (src + (b - dst)) else mem b)
unfolding write
mem_copy_step mem src dst size b apart = ground arith

-- MemCopy moves a block, where the target lies below the source or clear of it.
pub mem_copy_lem :
    (mem : Memory) (src dst size b : ℕ)
    → (dst ≤ src) ⊎ (src + size ≤ dst)
    → mem_copy mem src dst size b
      ≡ (if leb dst b && ltb b (dst + size) then mem (src + (b - dst)) else mem b)
unfolding mem_copy
mem_copy_lem mem src dst zero b apart = ground arith
mem_copy_lem mem src dst (suc size) b apart =
    mem_copy_lem (write mem dst (mem src)) (src + 1) (dst + 1) size b (omega arith)
    ∙ mem_copy_step mem src dst size b apart

-- MemSet fills its block and changes nothing else.
pub mem_set_lem :
    (mem : Memory) (src byte size b : ℕ)
    → mem_set mem src byte size b ≡ (if leb src b && ltb b (src + size) then byte else mem b)
unfolding mem_set write
mem_set_lem mem src byte zero b = ground arith
mem_set_lem mem src byte (suc size) b =
    ground (arith, mem_set_lem (write mem src byte) (src + 1) byte size b)

-- ===== src/StdLib.antt =====
-- kernel/lib/StdLib.cpp and StdMem.cpp: strings and blocks of bytes. StrCmp and FirstIndexOf read
-- their strings only, so a string there is its bytes up to the terminator, and a null pointer is
-- `none`. StrLen, StrCpy, MemCopy and MemSet work on a memory from addresses to bytes.
pub mod Compare
pub mod Copying
use lt_micros.Base.{
  ℕ, zero, suc, ◌+◌, ◌-◌, Option, none, some, List, [], ◌∷◌, Bool, true, false, if◌then◌else◌, ◌==◌,
  ltb, ◌||◌, ◌&&◌, not,
}
use lt_micros.Base.Int.{ℤ, pos, negsuc}
use lt_micros.Base.Status.{Run, ok, running}

-- `char` is signed: the order of bytes as the comparisons `<` and `>` see it.
abbrev pub char_key : ℕ → ℕ
char_key c = if ltb c 128 then c + 128 else c - 128

abbrev pub is_end : List ℕ → Bool
is_end [] = true
is_end (c ∷ cs) = false

-- The loop of StrCmp, from one index on.
unfoldable pub str_cmp_from : List ℕ → List ℕ → ℤ
str_cmp_from [] t = pos 0
str_cmp_from (c ∷ s) [] = pos 0
str_cmp_from (c ∷ s) (d ∷ t) =
    let rest = str_cmp_from s t in
    if ltb (char_key c) (char_key d)
    then negsuc 0
    else if ltb (char_key d) (char_key c)
    then pos 1
    else if is_end s && not (is_end t)
    then negsuc 0
    else if is_end t && not (is_end s)
    then pos 1
    else rest

-- StrCmp
unfoldable pub str_cmp : Option (List ℕ) → Option (List ℕ) → ℤ
unfolding str_cmp_from
str_cmp none t = negsuc 1
str_cmp (some s) none = negsuc 1
str_cmp (some s) (some t) = str_cmp_from s t

first_index_from : ℕ → List ℕ → ℕ → ℤ
first_index_from index [] c = negsuc 0
first_index_from index (d ∷ s) c =
    let rest = first_index_from (index + 1) s c in if d == c then pos index else rest

-- FirstIndexOf
unfoldable pub first_index_of : Option (List ℕ) → ℕ → ℤ
unfolding first_index_from
first_index_of none c = negsuc 1
first_index_of (some s) c = first_index_from 0 s c

abbrev pub Memory : Type 0
Memory = ℕ → ℕ

unfoldable pub write : Memory → ℕ → ℕ → Memory
write mem a v b = if b == a then v else mem b

-- The loop of StrLen on fuel: from address `str` with `length` counted.
unfoldable pub str_len_from : ℕ → Memory → ℕ → ℕ → Run ℕ
str_len_from zero mem str length = running
str_len_from (suc fuel) mem str length =
    let rest = str_len_from fuel mem (str + 1) (length + 1) in
    if mem str == 0 then ok length else rest

-- StrLen
unfoldable pub str_len : ℕ → Memory → ℕ → Run ℕ
unfolding str_len_from
str_len fuel mem str = if str == 0 then ok 0 else str_len_from fuel mem str 0

-- The loop of StrCpy on fuel, and the terminator that it writes last.
unfoldable pub str_cpy_from : ℕ → Memory → ℕ → ℕ → Run Memory
str_cpy_from zero mem src dst = running
str_cpy_from (suc fuel) mem src dst =
    let rest = str_cpy_from fuel (write mem dst (mem src)) (src + 1) (dst + 1) in
    if mem src == 0 then ok (write mem dst 0) else rest

-- StrCpy
unfoldable pub str_cpy : ℕ → Memory → ℕ → ℕ → Run Memory
unfolding str_cpy_from
str_cpy fuel mem src dst =
    if (src == 0) || (dst == 0) then ok mem else str_cpy_from fuel mem src dst

-- MemCopy
unfoldable pub mem_copy : Memory → ℕ → ℕ → ℕ → Memory
mem_copy mem src dst zero = mem
mem_copy mem src dst (suc size) = mem_copy (write mem dst (mem src)) (src + 1) (dst + 1) size

-- MemSet
unfoldable pub mem_set : Memory → ℕ → ℕ → ℕ → Memory
mem_set mem src byte zero = mem
mem_set mem src byte (suc size) = mem_set (write mem src byte) (src + 1) byte size

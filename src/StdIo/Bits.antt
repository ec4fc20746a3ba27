-- ===== src/StdIo/Bits.antt =====
-- kernel/lib/StdIo.cpp: reading back what printBin prints.
use lt_micros.Base.{
  ℕ, zero, suc, ◌+◌, ◌*◌, ◌/◌, ◌%◌, ◌^◌, ◌≤◌, ◌<◌, ◌≡◌, refl, ap, sym, ◌∙◌, List, [], ◌∷◌, Bool,
  true, false, not, ◌&&◌, if◌then◌else◌, ◌==◌, ltb, leb, arith,
}
use native.Mathlib.Nat.{div-div-eq-div-mul, div-eq_of_lt, div-one}
use lt_micros.StdIo.{print_bits, print_bin}

-- The number that bits stand for, behind bits already read; a dot and the final `b` are passed over.
unfoldable pub read_bits : (acc : ℕ) → List ℕ → ℕ
read_bits acc [] = acc
read_bits acc (c ∷ cs) =
    read_bits (if c == b'1' then 2 * acc + 1 else if c == b'0' then 2 * acc else acc) cs

shift_once : (value offset : ℕ) → value / 2 ^ suc offset ≡ value / 2 ^ offset / 2
shift_once value offset =
    let halved : 2 ^ suc offset ≡ 2 ^ offset * 2 = omega arith in
    ap (λ d. value / d) halved ∙ sym (div-div-eq-div-mul value (2 ^ offset) 2)

next_bit :
    (value offset : ℕ)
    → (if value / 2 ^ offset % 2 == 1
        then 2 * (value / 2 ^ suc offset) + 1
        else 2 * (value / 2 ^ suc offset))
      ≡ value / 2 ^ offset
next_bit value offset = rw (shift_once value offset) (ground arith)

dot_skipped :
    (dotted : Bool) (acc : ℕ) (cs : List ℕ)
    → read_bits acc (if dotted then b'.' ∷ cs else cs) ≡ read_bits acc cs
unfolding read_bits
dot_skipped true acc cs = refl
dot_skipped false acc cs = refl

bit_read :
    (one : Bool) (acc : ℕ) (cs : List ℕ)
    → read_bits acc ((if one then b'1' else b'0') ∷ cs)
      ≡ read_bits (if one then 2 * acc + 1 else 2 * acc) cs
unfolding read_bits
bit_read true acc cs = refl
bit_read false acc cs = refl

print_bits-read_bits :
    (left i width value : ℕ) → read_bits (value / 2 ^ left) (print_bits left i width value) ≡ value
unfolding print_bits read_bits
print_bits-read_bits zero i width value = div-one value
print_bits-read_bits (suc offset) i width value =
    dot_skipped (ltb 8 width && i % 8 == 0 && not (i == 0)) _ _
    ∙ bit_read (value / 2 ^ offset % 2 == 1) (value / 2 ^ suc offset)
        (print_bits offset (i + 1) width value)
    ∙ ap (λ acc. read_bits acc (print_bits offset (i + 1) width value)) (next_bit value offset)
    ∙ print_bits-read_bits offset (i + 1) width value

print_bin_positive :
    (value width : ℕ)
    → width ≤ 32
    → read_bits 0 (print_bin value width) ≡ read_bits 0 (print_bits width 0 width value)
unfolding print_bin
print_bin_positive value width short =
    let positive : leb (2 ^ 31) width ≡ false = ground arith in
    let narrow : ltb 32 width ≡ false = ground arith in rw positive (rw narrow refl)

-- printBin of a value that fits in the number of bits asked for, at most 32, prints them: read as bits
-- they are the value.
pub print_bin-read_bits :
    (value width : ℕ) → width ≤ 32 → value < 2 ^ width → read_bits 0 (print_bin value width) ≡ value
print_bin-read_bits value width short fits =
    let nothing : value / 2 ^ width ≡ 0 = div-eq_of_lt fits in
    print_bin_positive value width short
    ∙ ap (λ acc. read_bits acc (print_bits width 0 width value)) (sym nothing)
    ∙ print_bits-read_bits width 0 width value

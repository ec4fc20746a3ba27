-- ===== src/Vmm/Entries.antt =====
-- The words that SetPageDirectoryEntry and SetPageTableEntry leave.
use lt_micros.Base.{
  ℕ, zero, suc, ◌/◌, ◌%◌, ◌<◌, ◌≡◌, refl, ◌∙◌, List, [], ◌∷◌, Bool, true, false, arith,
}
use lt_micros.Vmm.{
  put_bit, flag_on, put_flags, page_directory_entry, page_table_entry, frame_of, is_present,
}

-- A field below bit 8 leaves the bits from 8 on, and one above bit 0 leaves the lowest.
put_bit-high : (w i : ℕ) (b : Bool) → put_bit w i b / 256 ≡ w / 256
unfolding put_bit
put_bit-high w zero b = ground arith
put_bit-high w (suc zero) b = ground arith
put_bit-high w (suc (suc zero)) b = ground arith
put_bit-high w (suc (suc (suc zero))) b = ground arith
put_bit-high w (suc (suc (suc (suc zero)))) b = ground arith
put_bit-high w (suc (suc (suc (suc (suc zero))))) b = ground arith
put_bit-high w (suc (suc (suc (suc (suc (suc zero)))))) b = ground arith
put_bit-high w (suc (suc (suc (suc (suc (suc (suc i))))))) b = ground arith

put_bit-low : (w i : ℕ) (b : Bool) → put_bit w (suc i) b % 2 ≡ w % 2
unfolding put_bit
put_bit-low w zero b = ground arith
put_bit-low w (suc zero) b = ground arith
put_bit-low w (suc (suc zero)) b = ground arith
put_bit-low w (suc (suc (suc zero))) b = ground arith
put_bit-low w (suc (suc (suc (suc zero)))) b = ground arith
put_bit-low w (suc (suc (suc (suc (suc zero))))) b = ground arith
put_bit-low w (suc (suc (suc (suc (suc (suc i)))))) b = ground arith

put_bit-zero : (w : ℕ) (b : Bool) → is_present (put_bit w 0 b) ≡ b
unfolding put_bit
put_bit-zero w true = ground arith
put_bit-zero w false = ground arith

put_flags-high : (is : List ℕ) (w flags : ℕ) → put_flags is w flags / 256 ≡ w / 256
unfolding put_flags
put_flags-high [] w flags = refl
put_flags-high (i ∷ is) w flags =
    put_flags-high is (put_bit w i (flag_on flags i)) flags ∙ put_bit-high w i (flag_on flags i)

-- No field of the list is the lowest bit.
abbrev AllPositive : List ℕ → Type 0
AllPositive [] = Unit {0}
AllPositive (i ∷ is) = (0 < i) × AllPositive is

put_flags-low : (is : List ℕ) (w flags : ℕ) → AllPositive is → put_flags is w flags % 2 ≡ w % 2
unfolding put_flags
put_flags-low [] w flags p = refl
put_flags-low (zero ∷ is) w flags p = absurd (omega arith)
put_flags-low (suc i ∷ is) w flags p =
    put_flags-low is (put_bit w (suc i) (flag_on flags (suc i))) flags p.1
    ∙ put_bit-low w i (flag_on flags (suc i))

put_flags-present :
    (is : List ℕ) (w flags : ℕ)
    → AllPositive is
    → is_present (put_flags (0 ∷ is) w flags) ≡ flag_on flags 0
unfolding put_flags
put_flags-present is w flags p =
    rw (put_flags-low is (put_bit w 0 (flag_on flags 0)) flags p) (put_bit-zero w (flag_on flags 0))

-- An entry keeps the address of a page, and is present as the flags say.
pub page_table_entry-frame : (p flags : ℕ) → frame_of (page_table_entry p flags) ≡ frame_of p
unfolding page_table_entry
page_table_entry-frame p flags =
    omega (arith, put_flags-high (0 ∷ 1 ∷ 2 ∷ 3 ∷ 4 ∷ 5 ∷ 6 ∷ []) p flags)

pub page_table_entry-present :
    (p flags : ℕ) → is_present (page_table_entry p flags) ≡ flag_on flags 0
unfolding page_table_entry
page_table_entry-present p flags =
    put_flags-present (1 ∷ 2 ∷ 3 ∷ 4 ∷ 5 ∷ 6 ∷ []) p flags (omega arith)

pub page_directory_entry-frame :
    (p flags : ℕ) → frame_of (page_directory_entry p flags) ≡ frame_of p
unfolding page_directory_entry
page_directory_entry-frame p flags =
    omega (arith, put_flags-high (0 ∷ 1 ∷ 2 ∷ 3 ∷ 4 ∷ 5 ∷ 7 ∷ []) p flags)

pub page_directory_entry-present :
    (p flags : ℕ) → is_present (page_directory_entry p flags) ≡ flag_on flags 0
unfolding page_directory_entry
page_directory_entry-present p flags =
    put_flags-present (1 ∷ 2 ∷ 3 ∷ 4 ∷ 5 ∷ 7 ∷ []) p flags (omega arith)

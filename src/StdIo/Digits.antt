-- ===== src/StdIo/Digits.antt =====
-- kernel/lib/StdIo.cpp: reading back what printInt prints.
use lt_micros.Base.{
  ℕ, zero, suc, ◌+◌, ◌-◌, ◌*◌, ◌/◌, ◌%◌, ◌^◌, ◌≤◌, ◌<◌, ◌≡◌, refl, sym, ap, ◌∙◌, List, [], ◌∷◌,
  true, false, if◌then◌else◌, ◌==◌, leb, length, arith, inl, inr, Bool-cases, ==_iff,
}
use native.Mathlib.Nat.{div-lt_iff_lt-mul, mod-lt, lt_of_lt_of_le}
use native.Mathlib.Omega.{div_any}
use lt_micros.Base.Bits.{holds_below, holds_below-at}
use lt_micros.Base.Status.{ok, ◌>>=◌}
use lt_micros.StdIo.{hex, digits, digits_fuel, print_int}

-- The value of a digit.
unfoldable pub digit_of : ℕ → ℕ
digit_of c = if leb b'A' c then c - b'A' + 10 else c - b'0'

-- The number that digits stand for, behind a number already read.
unfoldable pub read_digits : (base acc : ℕ) → List ℕ → ℕ
unfolding digit_of
read_digits base acc [] = acc
read_digits base acc (c ∷ cs) = read_digits base (acc * base + digit_of c) cs

hex_table : holds_below 16 (λ d. digit_of (hex d) == d) ≡ true
unfolding holds_below digit_of hex
hex_table = refl

digit_of-hex : (d : ℕ) → d < 16 → digit_of (hex d) ≡ d
digit_of-hex d h =
    ground (arith, holds_below-at d 16 (λ (e : ℕ). digit_of (hex e) == e) h hex_table)

module _ (base : ℕ) (two : 2 ≤ base) (sixteen : base ≤ 16) where
  quotient-lt : (q bits : ℕ) → q < 2 ^ suc bits → q / base < 2 ^ bits
  quotient-lt q bits h =
      (div-lt_iff_lt-mul (omega arith)).1
        (let double : 2 ^ suc bits ≡ 2 ^ bits * 2 = omega arith in grind arith)

  last_digit : (q : ℕ) → q / base * base + digit_of (hex (q % base)) ≡ q
  last_digit q =
      rw (digit_of-hex (q % base) (lt_of_lt_of_le (mod-lt q (omega arith)) sixteen))
        (omega (arith, div_any q base))

  digits_end : (f : ℕ) (chain : List ℕ) → digits (suc f) base 0 chain ≡ ok chain
  unfolding digits
  digits_end f chain = refl

  digits_more :
      (f quotient : ℕ) (chain : List ℕ)
      → (quotient == 0) ≡ false
      → length chain < 34
      → digits (suc f) base quotient chain
        ≡ digits f base (quotient / base) (hex (quotient % base) ∷ chain)
  unfolding digits
  digits_more f quotient chain more room = rw more (ground arith)

  read_next :
      (quotient : ℕ) (chain : List ℕ)
      → read_digits base (quotient / base) (hex (quotient % base) ∷ chain)
        ≡ read_digits base quotient chain
  unfolding read_digits
  read_next quotient chain = ap (λ q. read_digits base q chain) (last_digit quotient)

  -- Where there is room for as many digits as the number has bits, the loop ends within as many
  -- rounds and one, and its digits behind those it began with read as the number does.
  pub digits-read :
      (bits quotient : ℕ) (chain : List ℕ)
      → quotient < 2 ^ bits
      → length chain + bits ≤ 34
      → (ds : List ℕ) × (digits (suc bits) base quotient chain ≡ ok ds)
        × (read_digits base 0 ds ≡ read_digits base quotient chain)
        × (length ds ≤ length chain + bits)
  digits-read zero quotient chain h room =
      let none_left : quotient ≡ 0 = omega arith in
      (
        chain,
        rw none_left (digits_end 0 chain),
        ap (λ q. read_digits base q chain) (sym none_left),
        omega arith,
      )
  digits-read (suc bits) quotient chain h room = elim (Bool-cases (quotient == 0)) [
    | inl ended ↦
        let none_left : quotient ≡ 0 = (==_iff quotient 0).0 ended in
        (
          chain,
          rw none_left (digits_end (suc bits) chain),
          ap (λ q. read_digits base q chain) (sym none_left),
          omega arith,
        )
    | inr more ↦
        let (ds, ended, reads, short) =
          digits-read bits (quotient / base) (hex (quotient % base) ∷ chain)
            (quotient-lt quotient bits h) (omega arith) in
        (
          ds,
          digits_more (suc bits) quotient chain more (omega arith) ∙ ended,
          reads ∙ read_next quotient chain,
          omega arith,
        )
  ]

print_int_zero : (base : ℕ) → 2 ≤ base → base ≤ 16 → print_int 0 base ≡ ok (b'0' ∷ [])
unfolding print_int digits
print_int_zero base two sixteen = ground arith

pub nought_read : (base : ℕ) → read_digits base 0 (b'0' ∷ []) ≡ 0
unfolding read_digits
nought_read base = ground arith

print_int_more :
    (x base : ℕ)
    → 2 ≤ base
    → base ≤ 16
    → (x == 0) ≡ false
    → print_int x base ≡ (digits digits_fuel base x [] >>= λ ds. ok ds)
unfolding print_int
print_int_more x base two sixteen more = ground arith

length_pos :
    (x base : ℕ) (ds : List ℕ) → (x == 0) ≡ false → read_digits base 0 ds ≡ x → 1 ≤ length ds
unfolding read_digits
length_pos x base [] more reads = ground arith
length_pos x base (d ∷ ds) more reads = omega arith

-- printInt of any 32 bits, in a base from 2 to 16, ends within the room of its array and prints at
-- most 32 digits, which read in that base are the number, taken as unsigned.
pub print_int-read_digits :
    (x base : ℕ)
    → x < 2 ^ 32
    → 2 ≤ base
    → base ≤ 16
    → (ds : List ℕ) × (print_int x base ≡ ok ds)
      × (read_digits base 0 ds ≡ x)
      × (1 ≤ length ds)
      × (length ds ≤ 32)
unfolding read_digits
print_int-read_digits x base fits two sixteen = elim (Bool-cases (x == 0)) [
  | inl nought ↦
      let e : x ≡ 0 = (==_iff x 0).0 nought in
      (
        b'0' ∷ [],
        ap (λ y. print_int y base) e ∙ print_int_zero base two sixteen,
        nought_read base ∙ sym e,
        omega arith,
        omega arith,
      )
  | inr more ↦
      let (ds, ended, reads, short) = digits-read base two sixteen 32 x [] fits (omega arith) in
      (
        ds,
        print_int_more x base two sixteen more ∙ ap (λ r. r >>= λ (ds : List ℕ). ok ds) ended,
        reads,
        length_pos x base ds more reads,
        omega arith,
      )
]

-- ===== src/Pmm/Bitmap.antt =====
-- The bitmap read page by page, and how its updates change that reading.
use lt_micros.Base.{
  ℕ, zero, suc, ◌+◌, ◌*◌, ◌/◌, ◌%◌, ◌≤◌, ◌<◌, ◌≡◌, ◌≢◌, refl, inl, inr, List, [], ◌∷◌, Bool, true,
  not, ◌&&◌, ◌||◌, ◌==◌, arith, set, get_or, length, length-set, get_or-set_self, get_or-set_ne,
  get_or_beyond, get_or_default, Bool-cases, ==_iff,
}
use lt_micros.Base.Bits.{
  test_bit, set_bit, clear_bit, test_bit-set_bit, test_bit-clear_bit, set_bit-lt, test_bit_full,
}
use lt_micros.Base.Lists.{AllBytes}
use lt_micros.Base.Words.{page_size}
use lt_micros.Pmm.{set_page_used, set_page_unused}

-- Page `p` is marked as used; a page with no bit counts as used.
unfoldable pub is_used : List ℕ → ℕ → Bool
is_used bm p = test_bit (get_or bm (p / 8) 255) (p % 8)

pub is_used-head : (b : ℕ) (bs : List ℕ) (q : ℕ) → q < 8 → is_used (b ∷ bs) q ≡ test_bit b q
unfolding is_used
is_used-head b bs q h =
    let e : q / 8 ≡ 0 = omega arith in let f : q % 8 ≡ q = omega arith in rw (e, f)

pub is_used-tail : (b : ℕ) (bs : List ℕ) (q : ℕ) → is_used (b ∷ bs) (8 + q) ≡ is_used bs q
unfolding is_used
is_used-tail b bs q =
    let e : (8 + q) / 8 ≡ suc (q / 8) = omega arith in
    let f : (8 + q) % 8 ≡ q % 8 = omega arith in rw (e, f)

pub is_used_beyond : (bm : List ℕ) (q : ℕ) → 8 * length bm ≤ q → is_used bm q ≡ true
unfolding is_used
is_used_beyond bm q h =
    rw (get_or_beyond bm (q / 8) 255 (omega arith)) (test_bit_full (q % 8) (omega arith))

pub get_or-AllBytes : (bm : List ℕ) (i d : ℕ) → AllBytes bm → i < length bm → get_or bm i d < 256
get_or-AllBytes [] i d h lt = elim lt [ ]
get_or-AllBytes (b ∷ bs) zero d h lt = h.0
get_or-AllBytes (b ∷ bs) (suc i) d h lt = get_or-AllBytes bs i d h.1 (omega arith)

pub set-AllBytes : (bm : List ℕ) (i v : ℕ) → AllBytes bm → v < 256 → AllBytes (set bm i v)
set-AllBytes [] i v h lt = h
set-AllBytes (b ∷ bs) zero v h lt = (lt, h.1)
set-AllBytes (b ∷ bs) (suc i) v h lt = (h.0, set-AllBytes bs i v h.1 lt)

-- A write to byte `i` shows in the pages of that byte only.
pub is_used_byte :
    (bm : List ℕ) (i q v : ℕ)
    → i < length bm
    → i ≡ q / 8
    → is_used (set bm i v) q ≡ test_bit v (q % 8)
unfolding is_used
is_used_byte bm i q v h e = rw (← e, get_or-set_self bm i v 255 h) refl

pub is_used_other : (bm : List ℕ) (i q v : ℕ) → i ≢ q / 8 → is_used (set bm i v) q ≡ is_used bm q
unfolding is_used
is_used_other bm i q v ne = rw (get_or-set_ne bm i (q / 8) v 255 ne) refl

module _ (bm : List ℕ) (p q : ℕ) (bytes : AllBytes bm) (inside : p < 8 * length bm) where
  is_used-same : p / 8 ≡ q / 8 → is_used bm q ≡ test_bit (get_or bm (p / 8) 0) (q % 8)
  unfolding is_used
  is_used-same e = rw (← e, get_or_default bm (p / 8) 255 0 (omega arith)) refl

  byte_lt : get_or bm (p / 8) 0 < 256
  byte_lt = get_or-AllBytes bm (p / 8) 0 bytes (omega arith)

  -- Marking a page as used changes that page and no other.
  pub is_used-set_page_used : is_used (set_page_used bm p) q ≡ ((p == q) || is_used bm q)
  unfolding set_page_used
  is_used-set_page_used = elim (Bool-cases (p / 8 == q / 8)) [
    | inl e ↦
        let e' : p / 8 ≡ q / 8 = (==_iff _ _).0 e in
        ground (
          arith,
          is_used_byte bm (p / 8) q (set_bit (get_or bm (p / 8) 0) (p % 8)) (omega arith) e',
          is_used-same e',
          test_bit-set_bit (get_or bm (p / 8) 0) (p % 8) (q % 8) byte_lt (omega arith)
              (omega arith),
        )
    | inr e ↦ ground (arith, is_used_other bm (p / 8) q (set_bit (get_or bm (p / 8) 0) (p % 8)))
  ]

  pub is_used-set_page_unused :
      (addr : ℕ)
      → addr / page_size ≡ p
      → is_used (set_page_unused bm addr) q ≡ (not (p == q) && is_used bm q)
  unfolding set_page_unused
  is_used-set_page_unused addr a = rw a (elim (Bool-cases (p / 8 == q / 8)) [
    | inl e ↦
        let e' : p / 8 ≡ q / 8 = (==_iff _ _).0 e in
        ground (
          arith,
          is_used_byte bm (p / 8) q (clear_bit (get_or bm (p / 8) 0) (p % 8)) (omega arith) e',
          is_used-same e',
          test_bit-clear_bit (get_or bm (p / 8) 0) (p % 8) (q % 8) byte_lt (omega arith)
              (omega arith),
        )
    | inr e ↦ ground (arith, is_used_other bm (p / 8) q (clear_bit (get_or bm (p / 8) 0) (p % 8)))
  ])

  pub set_page_used-AllBytes : AllBytes (set_page_used bm p)
  unfolding set_page_used
  set_page_used-AllBytes = set-AllBytes bm _ _ bytes (set_bit-lt _ _ byte_lt (omega arith))

pub length-set_page_used : (bm : List ℕ) (p : ℕ) → length (set_page_used bm p) ≡ length bm
unfolding set_page_used
length-set_page_used bm p = length-set bm _ _

-- ===== src/Pmm/Search.antt =====
-- What the two loops of GetFreePage find.
use lt_micros.Base.{
  ℕ, zero, suc, ◌+◌, ◌-◌, ◌*◌, ◌≤◌, ◌<◌, ◌≡◌, refl, ◌∙◌, ◌⊎◌, inl, inr, List, [], ◌∷◌, Option, none,
  some, true, false, ◌==◌, arith, length, Bool-cases, Option-cases, ltb,
}
use lt_micros.Base.Bits.{test_bit, test_bit_full}
use lt_micros.Pmm.{find_bit, find_page}
use lt_micros.Pmm.Bitmap.{is_used, is_used-head, is_used-tail}

-- Bit `r` is the first clear one among the bits from `bit` on.
record FirstClear (n bit b r : ℕ) : Type 0 where
  above : bit ≤ r
  below : r < bit + n
  clear : test_bit b r ≡ false
  first : (i : ℕ) → bit ≤ i → i < r → test_bit b i ≡ true

find_bit-some : (n bit b r : ℕ) → find_bit n bit b ≡ some r → FirstClear n bit b r
unfolding find_bit
find_bit-some zero bit b r e = cc
find_bit-some (suc n) bit b r e = elim (Bool-cases (test_bit b bit)) [
  | inl t ↦
      let f : FirstClear n (bit + 1) b r = find_bit-some n (bit + 1) b r (ground arith) in
      record {
        above = omega (arith, f.above);
        below = omega (arith, f.below);
        clear = f.clear;
        first = λ i lo hi. elim (Bool-cases (bit == i)) [
          | inl s ↦ ground arith
          | inr s ↦ f.first i (ground arith) hi
        ];
      }
  | inr t ↦
      let s : bit ≡ r = ground arith in
      record {
        above = omega arith;
        below = omega arith;
        clear = ground arith;
        first = λ i lo hi. absurd (omega arith);
      }
]

find_bit-none :
    (n bit b : ℕ) → find_bit n bit b ≡ none → (i : ℕ) → bit ≤ i → i < bit + n → test_bit b i ≡ true
unfolding find_bit
find_bit-none zero bit b e i lo hi = absurd (omega arith)
find_bit-none (suc n) bit b e i lo hi = elim (Bool-cases (bit == i)) [
  | inl s ↦ ground arith
  | inr s ↦ ground (arith, find_bit-none n (bit + 1) b (ground arith) i)
]

-- Page `r` of the bytes is the first free one.
pub record FirstFree (bs : List ℕ) (r : ℕ) : Type 0 where
  pub inside : r < 8 * length bs
  pub free : is_used bs r ≡ false
  pub first : (q : ℕ) → q < r → is_used bs q ≡ true

-- All the pages of a byte are used.
head_used :
    (b : ℕ) (bs : List ℕ)
    → ((i : ℕ) → i < 8 → test_bit b i ≡ true)
    → (q : ℕ) → q < 8
    → is_used (b ∷ bs) q ≡ true
head_used b bs full q h = is_used-head b bs q h ∙ full q h

cons-used :
    (b : ℕ) (bs : List ℕ) (r : ℕ)
    → ((i : ℕ) → i < 8 → test_bit b i ≡ true)
    → ((q : ℕ) → q < r → is_used bs q ≡ true)
    → (q : ℕ) → q < 8 + r
    → is_used (b ∷ bs) q ≡ true
cons-used b bs r full used q h = elim (Bool-cases (ltb q 8)) [
  | inl lt ↦ head_used b bs full q (ground arith)
  | inr ge ↦
      let e : q ≡ 8 + (q - 8) = ground arith in
      rw e (is_used-tail b bs (q - 8) ∙ used (q - 8) (ground arith))
]

cons-FirstFree :
    (b : ℕ) (bs : List ℕ) (r : ℕ)
    → ((i : ℕ) → i < 8 → test_bit b i ≡ true)
    → FirstFree bs r
    → FirstFree (b ∷ bs) (8 + r)
cons-FirstFree b bs r full f = record {
  inside = omega (arith, f.inside);
  free = is_used-tail b bs r ∙ f.free;
  first = cons-used b bs r full f.first;
}

-- A result of the scan from byte `k` on is the first free page, counted from there.
pub Found : List ℕ → ℕ → Option ℕ → Type 0
Found bs k (some p) = (r : ℕ) × (p ≡ 8 * k + r) × FirstFree bs r
Found bs k none = (q : ℕ) → q < 8 * length bs → is_used bs q ≡ true

Found-cons :
    (b : ℕ) (bs : List ℕ) (k : ℕ) (o : Option ℕ)
    → ((i : ℕ) → i < 8 → test_bit b i ≡ true)
    → Found bs (k + 1) o
    → Found (b ∷ bs) k o
unfolding Found
Found-cons b bs k (some p) full (r, e, f) = (8 + r, omega arith, cons-FirstFree b bs r full f)
Found-cons b bs k none full used = λ q h. cons-used b bs (8 * length bs) full used q (omega arith)

pub find_page-Found : (bs : List ℕ) (k : ℕ) → Found bs k (find_page bs k)
unfolding find_page Found
find_page-Found [] k = λ q h. absurd (omega arith)
find_page-Found (b ∷ bs) k = elim (Bool-cases (b == 255)) [
  | inl e ↦
      let b255 : b ≡ 255 = ground arith in
      rw e (
        Found-cons b bs k (find_page bs (k + 1)) (rw b255 test_bit_full)
          (find_page-Found bs (k + 1)))
  | inr e ↦ elim (Option-cases (find_bit 8 0 b)) [
    | inl n ↦
        rw (e, n)
          (Found-cons b bs k (find_page bs (k + 1))
            (λ i h. find_bit-none 8 0 b n i (omega arith) (omega arith))
            (find_page-Found bs (k + 1)))
    | inr (bit, s) ↦
        let f : FirstClear 8 0 b bit = find_bit-some 8 0 b bit s in
        let lt : bit < 8 = omega (arith, f.below) in
        rw (e, s)
          (
            bit,
            refl,
            record {
              inside = omega arith;
              free = is_used-head b bs bit lt ∙ f.clear;
              first = λ q h. is_used-head b bs q (omega arith) ∙ f.first q (omega arith) h;
            },
          )
  ]
]

Found-FirstFree : (bs : List ℕ) (o : Option ℕ) (p : ℕ) → Found bs 0 o → FirstFree bs p → o ≡ some p
unfolding Found
Found-FirstFree bs (some s) p (r, e, g) f = ground (arith, f.first r, g.first p, g.free, f.free)
Found-FirstFree bs none p used f = ground (arith, used p f.inside, f.free)

Found-full :
    (bs : List ℕ) (o : Option ℕ)
    → Found bs 0 o
    → ((q : ℕ) → q < 8 * length bs → is_used bs q ≡ true)
    → o ≡ none
unfolding Found
Found-full bs (some s) (r, e, g) full = ground (arith, full r g.inside, g.free)
Found-full bs none used full = refl

pub find_page-FirstFree : (bs : List ℕ) (p : ℕ) → FirstFree bs p → find_page bs 0 ≡ some p
find_page-FirstFree bs p f = Found-FirstFree bs (find_page bs 0) p (find_page-Found bs 0) f

pub find_page_full :
    (bs : List ℕ) → ((q : ℕ) → q < 8 * length bs → is_used bs q ≡ true) → find_page bs 0 ≡ none
find_page_full bs full = Found-full bs (find_page bs 0) (find_page-Found bs 0) full

-- Either every page is used or one is the first free one.
pub FirstFree-cases :
    (bs : List ℕ) → ((p : ℕ) × FirstFree bs p) ⊎ ((q : ℕ) → q < 8 * length bs → is_used bs q ≡ true)
unfolding Found
FirstFree-cases bs = cases (find_page bs 0) (find_page-Found bs 0)
  where
    cases :
        (o : Option ℕ)
        → Found bs 0 o
        → ((p : ℕ) × FirstFree bs p) ⊎ ((q : ℕ) → q < 8 * length bs → is_used bs q ≡ true)
    cases (some s) (r, e, f) = inl (r, f)
    cases none used = inr used

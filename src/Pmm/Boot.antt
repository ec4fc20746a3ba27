-- ===== src/Pmm/Boot.antt =====
-- PmmBitmap::Init: which pages are in use when the allocator starts.
use lt_micros.Base.{
  ℕ, zero, suc, ◌+◌, ◌-◌, ◌*◌, ◌/◌, ◌%◌, ◌≤◌, ◌<◌, ◌≡◌, refl, ◌∙◌, inl, inr, List, [], ◌&&◌, ◌||◌,
  ◌==◌, ltb, leb, arith, set, length, length-set, length-replicate, replicate, Bool-cases, ==_iff,
}
use lt_micros.Base.Lists.{AllBytes}
use lt_micros.Base.Words.{page_size, mul32}
use lt_micros.Base.Bits.{test_bit_full, test_bit_empty}
use lt_micros.Pmm.{page_of, init, set_page_used, fill_used, use_pages}
use lt_micros.Pmm.Bitmap.{
  is_used, is_used-set_page_used, set_page_used-AllBytes, set-AllBytes, length-set_page_used,
  is_used_beyond, is_used-head, is_used-tail, is_used_byte, is_used_other,
}

fill_step :
    (bm : List ℕ) (page q : ℕ)
    → page < length bm
    → is_used (set bm page 255) q ≡ ((leb (8 * page) q && ltb q (8 * page + 8)) || is_used bm q)
fill_step bm page q h = elim (Bool-cases (page == q / 8)) [
  | inl e ↦
      let s : page ≡ q / 8 = (==_iff page (q / 8)).0 e in
      ground (arith, is_used_byte bm page q 255 h s, test_bit_full (q % 8) (omega arith))
  | inr e ↦ ground (arith, is_used_other bm page q 255)
]

is_used-fill_used :
    (n page : ℕ) (bm : List ℕ) (q : ℕ)
    → page + n ≤ length bm
    → is_used (fill_used n page bm) q
      ≡ ((leb (8 * page) q && ltb q (8 * (page + n))) || is_used bm q)
unfolding fill_used
is_used-fill_used zero page bm q h = ground arith
is_used-fill_used (suc n) page bm q h = ground (
  arith,
  is_used-fill_used n (page + 1) (set bm page 255) q (omega (arith, length-set bm page 255)),
  fill_step bm page q (omega arith),
)

length-fill_used : (n page : ℕ) (bm : List ℕ) → length (fill_used n page bm) ≡ length bm
unfolding fill_used
length-fill_used zero page bm = refl
length-fill_used (suc n) page bm =
    length-fill_used n (page + 1) (set bm page 255) ∙ length-set bm page 255

fill_used-AllBytes : (n page : ℕ) (bm : List ℕ) → AllBytes bm → AllBytes (fill_used n page bm)
unfolding fill_used
fill_used-AllBytes zero page bm b = b
fill_used-AllBytes (suc n) page bm b =
    fill_used-AllBytes n (page + 1) (set bm page 255) (set-AllBytes bm page 255 b (omega arith))

is_used-use_pages :
    (n page : ℕ) (bm : List ℕ) (q : ℕ)
    → AllBytes bm
    → page + n ≤ 8 * length bm
    → is_used (use_pages n page bm) q ≡ ((leb page q && ltb q (page + n)) || is_used bm q)
unfolding use_pages
is_used-use_pages zero page bm q b h = ground arith
is_used-use_pages (suc n) page bm q b h = ground (
  arith,
  is_used-use_pages n (page + 1) (set_page_used bm page) q
      (set_page_used-AllBytes bm page page b (omega arith))
      (omega (arith, length-set_page_used bm page)),
  is_used-set_page_used bm page q b (omega arith),
)

replicate-AllBytes : (n : ℕ) → AllBytes (replicate n 0)
replicate-AllBytes zero = tt
replicate-AllBytes (suc n) = (omega arith, replicate-AllBytes n)

is_used-replicate : (n q : ℕ) → is_used (replicate n 0) q ≡ leb (8 * n) q
is_used-replicate zero q = is_used_beyond [] q (omega arith) ∙ ground arith
is_used-replicate (suc n) q = elim (Bool-cases (ltb q 8)) [
  | inl lt ↦
      is_used-head 0 (replicate n 0) q (ground arith)
      ∙ test_bit_empty q (ground arith)
      ∙ ground arith
  | inr ge ↦
      let e : q ≡ 8 + (q - 8) = ground arith in
      ground (arith, e, is_used-tail 0 (replicate n 0) (q - 8), is_used-replicate n (q - 8))
]

-- After Init exactly these pages are in use: those below the kernel's limit, those from the byte
-- that holds the last page of memory on, and those that the bitmap has no bit for.
pub is_used-init :
    (size high_mem limit q : ℕ)
    → page_of limit ≤ 8 * size
    → mul32 high_mem 1024 / page_size / 8 ≤ size
    → is_used (init size high_mem limit) q
      ≡ (ltb q (page_of limit) || leb (8 * (mul32 high_mem 1024 / page_size / 8)) q)
unfolding init
is_used-init size high_mem limit q h small =
    let start = mul32 high_mem 1024 / page_size / 8 in
    let blank : List ℕ = replicate size 0 in
    let filled : List ℕ = fill_used (size - start) start blank in
    ground (
      arith,
      length-replicate {A = ℕ} size 0,
      length-fill_used (size - start) start blank,
      is_used-use_pages (page_of limit) 0 filled q
          (fill_used-AllBytes (size - start) start blank (replicate-AllBytes size))
          (omega
            (arith, length-fill_used (size - start) start blank, length-replicate {A = ℕ} size 0)),
      is_used-fill_used (size - start) start blank q
          (omega (arith, length-replicate {A = ℕ} size 0)),
      is_used-replicate size q,
    )

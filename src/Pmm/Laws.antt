-- ===== src/Pmm/Laws.antt =====
-- The operations of the physical allocator, page by page.
use lt_micros.Base.{
  ℕ, ◌*◌, ◌/◌, ◌≤◌, ◌<◌, ◌≡◌, ◌≢◌, refl, ◌∙◌, inl, inr, List, true, not, ◌&&◌, ◌||◌, ◌==◌, arith,
  length,
}
use lt_micros.Base.Lists.{AllBytes}
use lt_micros.Base.Words.{page_size, mul32}
use lt_micros.Pmm.{mem_bitmap_size, no_page, get_free_page, release_page, set_page_used}
use lt_micros.Pmm.Bitmap.{
  is_used, is_used-set_page_used, is_used-set_page_unused, set_page_used-AllBytes,
  length-set_page_used,
}
use lt_micros.Pmm.Search.{FirstFree, find_page-FirstFree, find_page_full, FirstFree-cases}

get_free_page-some :
    (bm : List ℕ) (page : ℕ)
    → FirstFree bm page
    → get_free_page bm ≡ (mul32 page page_size, set_page_used bm page)
unfolding get_free_page
get_free_page-some bm page f = rw (find_page-FirstFree bm page f, get_free_page) refl

get_free_page-none :
    (bm : List ℕ)
    → ((q : ℕ) → q < 8 * length bm → is_used bm q ≡ true)
    → get_free_page bm ≡ (no_page, bm)
unfolding get_free_page
get_free_page-none bm full = rw (find_page_full bm full, get_free_page) refl

-- With every page in use GetFreePage answers `(void *)(-1)`, which is not the null pointer, and
-- changes nothing.
pub get_free_page_full :
    (bm : List ℕ)
    → ((q : ℕ) → q < 8 * length bm → is_used bm q ≡ true)
    → (get_free_page bm ≡ (no_page, bm)) × ((get_free_page bm).0 ≢ 0)
get_free_page_full bm full = rw (get_free_page-none bm full) (refl, omega arith)

module _ (bm : List ℕ) (bytes : AllBytes bm) where
  -- GetFreePage hands out the lowest free page, and marks that page and no other.
  pub get_free_page_lowest :
      (page : ℕ)
      → length bm ≤ mem_bitmap_size
      → FirstFree bm page
      → ((get_free_page bm).0 ≡ page * page_size)
        × ((q : ℕ) → is_used (get_free_page bm).1 q ≡ ((page == q) || is_used bm q))
  get_free_page_lowest page size f =
      rw (get_free_page-some bm page f)
        (omega (arith, f.inside), λ q. is_used-set_page_used bm page q bytes f.inside)

  -- ReleasePage frees the page of the address and no other.
  pub is_used-release_page :
      (addr q : ℕ)
      → addr / page_size < 8 * length bm
      → is_used (release_page bm addr) q ≡ (not (addr / page_size == q) && is_used bm q)
  unfolding release_page
  is_used-release_page addr q h = is_used-set_page_unused bm (addr / page_size) q bytes h addr refl

  pub get_free_page-AllBytes : AllBytes (get_free_page bm).1
  get_free_page-AllBytes = elim (FirstFree-cases bm) [
    | inl (p, f) ↦ rw (get_free_page-some bm p f) (set_page_used-AllBytes bm p p bytes f.inside)
    | inr full ↦ rw (get_free_page-none bm full) bytes
  ]

pub length-get_free_page : (bm : List ℕ) → length (get_free_page bm).1 ≡ length bm
length-get_free_page bm = elim (FirstFree-cases bm) [
  | inl (p, f) ↦ rw (get_free_page-some bm p f) (length-set_page_used bm p)
  | inr full ↦ rw (get_free_page-none bm full) refl
]

module _ (bm : List ℕ) (bytes : AllBytes bm) (page : ℕ) (size : length bm ≤ mem_bitmap_size)
    (free : FirstFree bm page) where
  -- A page that is handed out and given back leaves every page as it was.
  pub release_page-get_free_page :
      (q : ℕ) → is_used (release_page (get_free_page bm).1 (get_free_page bm).0) q ≡ is_used bm q
  release_page-get_free_page q =
      let got = get_free_page_lowest bm bytes page size free in
      let addr : (get_free_page bm).0 / page_size ≡ page = omega (arith, got.0) in
      ground (
        arith,
        is_used-release_page (get_free_page bm).1 (get_free_page-AllBytes bm bytes)
            (get_free_page bm).0 q (omega (arith, length-get_free_page bm, free.inside)),
        got.1 q,
        free.free,
      )

  -- The next call hands out another page.
  pub get_free_page_fresh : (get_free_page (get_free_page bm).1).0 ≢ (get_free_page bm).0
  get_free_page_fresh same = elim (FirstFree-cases (get_free_page bm).1) [
    | inl (p, f) ↦
        let got = get_free_page_lowest bm bytes page size free in
        let next =
          get_free_page_lowest (get_free_page bm).1 (get_free_page-AllBytes bm bytes) p
            (omega (arith, length-get_free_page bm)) f in
        let e : p ≡ page = omega (arith, got.0, next.0) in ground (arith, got.1 p, f.free)
    | inr full ↦
        let got = get_free_page_lowest bm bytes page size free in
        let e : no_page ≡ page * page_size =
          rw (get_free_page-none (get_free_page bm).1 full) at same ∙ got.0 in
        omega arith
  ]

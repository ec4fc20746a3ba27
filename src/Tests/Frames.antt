-- ===== src/Tests/Frames.antt =====
-- The physical allocator on a bitmap of three bytes: pages 0 to 10 and 16 to 23 are in use.
use lt_micros.Base.{ℕ, ◌*◌, ◌<◌, ◌≡◌, ◌≢◌, refl, List, [], ◌∷◌, true, ◌==◌, ◌||◌, arith, length}
use lt_micros.Base.Bits.{holds_below, holds_below-at, test_bit, set_bit}
use lt_micros.Base.Lists.{AllBytes}
use lt_micros.Base.Words.{page_size}
use lt_micros.Pmm.{get_free_page, find_page, find_bit, set_page_used}
use lt_micros.Pmm.Bitmap.{is_used}
use lt_micros.Pmm.Search.{FirstFree}
use lt_micros.Pmm.Laws.{get_free_page_lowest, get_free_page_fresh}

abbrev bitmap : List ℕ
bitmap = 255 ∷ 7 ∷ 255 ∷ []

abbrev full : List ℕ
full = 255 ∷ 255 ∷ []

bitmap-AllBytes : AllBytes bitmap
bitmap-AllBytes = omega arith

first_free : FirstFree bitmap 11
unfolding is_used holds_below test_bit
first_free = record {
  inside = omega arith;
  free = refl;
  first = λ q h. holds_below-at q 11 (is_used bitmap) h below_used;
}
  where
    below_used : holds_below 11 (is_used bitmap) ≡ true
    below_used = refl

full_used : (q : ℕ) → q < 8 * length full → is_used full q ≡ true
unfolding is_used holds_below test_bit
full_used q h = holds_below-at q 16 (is_used full) h all_used
  where
    all_used : holds_below 16 (is_used full) ≡ true
    all_used = refl

get_free_page_lowest_example :
    ((get_free_page bitmap).0 ≡ 11 * page_size)
    × ((q : ℕ) → is_used (get_free_page bitmap).1 q ≡ ((11 == q) || is_used bitmap q))
get_free_page_lowest_example =
    get_free_page_lowest bitmap bitmap-AllBytes 11 (omega arith) first_free

get_free_page_fresh_example : (get_free_page (get_free_page bitmap).1).0 ≢ (get_free_page bitmap).0
get_free_page_fresh_example = get_free_page_fresh bitmap bitmap-AllBytes 11 (omega arith) first_free

get_free_page_run : get_free_page bitmap ≡ (0xb000, 255 ∷ 15 ∷ 255 ∷ [])
unfolding get_free_page find_page find_bit set_page_used test_bit set_bit
get_free_page_run = refl

-- ===== src/Tests/Pool.antt =====
-- The page pool at concrete inputs.
use lt_micros.Base.{ℕ, zero, suc, ◌*◌, ◌≡◌, refl, Option, some, none, [], ◌∷◌, true, arith}
use lt_micros.Base.Status.{ok}
use lt_micros.PagePool.{PagePool, free}
use lt_micros.PagePool.Chains.{Chain, free_inner}

-- Blocks 1 and 0 are used, 2 and 3 are available.
abbrev next_of : ℕ → Option ℕ
next_of zero = none
next_of (suc zero) = some 0
next_of (suc (suc zero)) = some 3
next_of (suc (suc (suc n))) = none

abbrev pool : PagePool
pool = record {
  blocks = λ i. record { available = true; addr = 0x1000 * i; next = next_of i; prev = none };
  avail_page_list = some 2;
  used_page_list = some 1;
  bitmap = 255 ∷ [];
  mapped = [];
}

free_inner_example :
    (after : PagePool) × ((free 2 pool (0x3000, 0) ≡ ok after)
      × Chain after.blocks after.used_page_list (1 ∷ 0 ∷ 2 ∷ 3 ∷ [])
      × Chain after.blocks after.avail_page_list (0 ∷ 2 ∷ 3 ∷ []))
free_inner_example =
    free_inner 0 1 0 2 0x3000 [] (3 ∷ []) pool (refl, (refl, refl)) (refl, (refl, refl))
      (omega arith) (omega arith) (omega arith)

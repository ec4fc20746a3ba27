-- ===== src/Vad/Split.antt =====
-- How Split and SplitAtAddress divide a descriptor.
use lt_micros.Base.{
  ℕ, zero, suc, ◌+◌, ◌-◌, ◌*◌, ◌/◌, ◌<◌, ◌≤◌, ◌≡◌, ◌≢◌, refl, List, [], ◌∷◌, true, arith,
}
use lt_micros.Base.Words.{page_size, u32_mod, mul32}
use lt_micros.Base.Status.{ok}
use lt_micros.Vad.{Vad, local_mod, local_mod_loop, pages_for, split}
use lt_micros.Vad.Lookup.{Tiles, Tiles-le}

local_mod_loop_one : (fuel a b : ℕ) → 0 < a → 0 < b → a < fuel → local_mod_loop fuel a b ≡ 1
unfolding local_mod_loop
local_mod_loop_one zero a b ha hb h = absurd (omega arith)
local_mod_loop_one (suc fuel) a b ha hb h = ground (arith, local_mod_loop_one fuel (a - b) b)

-- `_local_mod` does not tell multiples of the divisor from other numbers: its loop stops at the
-- divisor itself, so it answers 1 for every positive number.
pub local_mod_one : (a b : ℕ) → 0 < a → 0 < b → local_mod a b ≡ 1
unfolding local_mod
local_mod_one a b ha hb = local_mod_loop_one (a + 1) a b ha hb (omega arith)

-- So the number of pages is one more than the quotient, also for a whole number of pages.
pub pages_for_lem : (size : ℕ) → 0 < size → pages_for size ≡ size / page_size + 1
unfolding pages_for
pages_for_lem size h = rw (local_mod_one size page_size h (omega arith), pages_for) refl

-- The bytes that a split for `size` gives to its first part.
abbrev pub granted : ℕ → ℕ
granted size = (size / page_size + 1) * page_size

abbrev pub first_part : Vad → ℕ → Vad
first_part v size = record v { limit_address = v.base_address + granted size; size = granted size }

abbrev pub second_part : Vad → ℕ → Vad
second_part v size = record {
  base_address = v.base_address + granted size;
  limit_address = v.base_address + v.size;
  size = v.size - granted size;
  free = true;
}

-- A descriptor below 2 ^ 32 with room for `size` bytes and more than a page beyond.
pub record Splittable (v : Vad) (size : ℕ) : Type 0 where
  pub positive : 0 < size
  pub room : size + page_size < v.size
  pub based : v.base_address ≢ 0
  pub low : v.base_address + v.size < u32_mod

module _ (v : Vad) (size : ℕ) (s : Splittable v size) where
  granted_bytes : mul32 (pages_for size) page_size ≡ granted size
  granted_bytes = omega (arith, pages_for_lem size s.positive, s.room, s.low)

  -- Split turns the head into two parts, and cuts off the descriptors `vs` behind it.
  pub split_lem :
      (vs : List Vad)
      → split true size (v ∷ vs) ≡ (ok tt, first_part v size ∷ second_part v size ∷ [])
  unfolding split
  split_lem vs = ground (arith, granted_bytes, s.positive, s.room, s.based, s.low)

  -- On the last descriptor of a chain without gaps the two parts cover the same addresses, and
  -- the first has the bytes that were asked for.
  pub split-Tiles :
      (b e : ℕ)
      → Tiles b e (v ∷ [])
      → Tiles b e (split true size (v ∷ [])).1
        × ((split true size (v ∷ [])).0 ≡ ok tt)
        × (size ≤ granted size)
  split-Tiles b e t = rw (split_lem []) (omega (arith, s.room, t), refl, omega arith)

  -- Anywhere else a gap opens: what stood behind the head is no longer in the chain.
  pub split_forgets :
      (b e : ℕ) (w : Vad) (ws : List Vad)
      → Tiles b e (v ∷ w ∷ ws)
      → ¬ Tiles b e (split true size (v ∷ w ∷ ws)).1
  split_forgets b e w ws t h =
      let parts : Tiles b e (first_part v size ∷ second_part v size ∷ []) =
        rw (split_lem (w ∷ ws)) at h in
      omega (arith, parts, s.room, Tiles-le (b + v.size + w.size) e ws t.3.3)

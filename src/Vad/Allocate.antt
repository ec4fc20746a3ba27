-- ===== src/Vad/Allocate.antt =====
-- Allocate: first fit, split, reserve. The shape that a process's chain has when only Allocate is
-- used, descriptors in use and one free descriptor behind them, is kept.
use lt_micros.Base.{
  ℕ, ◌+◌, ◌/◌, ◌%◌, ◌<◌, ◌≡◌, ◌≢◌, refl, ap, some, List, [], ◌∷◌, ◌++◌, Bool, true, false, arith,
  length, get_elem?,
}
use lt_micros.Base.Words.{page_size, null}
use lt_micros.Base.Status.{ok}
use lt_micros.Mapper.{Mapper}
use lt_micros.Vad.{Vad, split}
use lt_micros.Vad.Lookup.{Tiles, Tiles-le, AllUnfit, look_for_free_vad_first}
use lt_micros.Vad.Split.{Splittable, first_part, second_part, split_lem}
use lt_micros.Vad.Reserve.{reserve_list, page_run, page_count, reserve_pages_list}
use lt_micros.Vad.Operations.{
  ChainOp, apply_at, set_used, outcome, reserve_at, reserve_pages, allocate,
}

apply_at-append :
    (before chain : List Vad) (op : ChainOp)
    → apply_at (length before) op (before ++ chain) ≡ ((op chain).0, before ++ (op chain).1)
unfolding apply_at
apply_at-append [] chain op = refl
apply_at-append (v ∷ vs) chain op = rw (apply_at-append vs chain op) refl

get_elem?-length :
    (before behind : List Vad) (v : Vad) → get_elem? (before ++ v ∷ behind) (length before) ≡ some v
get_elem?-length [] behind v = refl
get_elem?-length (w ∷ ws) behind v = get_elem?-length ws behind v

set_used-length :
    (before behind : List Vad) (v : Vad)
    → set_used (length before) (before ++ v ∷ behind) ≡ before ++ record v { free = false } ∷ behind
unfolding set_used
set_used-length [] behind v = refl
set_used-length (w ∷ ws) behind v = ap (◌∷◌ w) (set_used-length ws behind v)

-- Two parts of `v` cannot reach as far as `v` with another descriptor behind it.
Tiles-short :
    (b e size : ℕ) (before : List Vad) (v w : Vad) (ws : List Vad)
    → size + page_size < v.size
    → Tiles b e (before ++ v ∷ w ∷ ws)
    → ¬ Tiles b e (before ++ record (first_part v size) { free = false } ∷ second_part v size ∷ [])
Tiles-short b e size [] v w ws room t h = omega (arith, Tiles-le (b + v.size + w.size) e ws t.3.3)
Tiles-short b e size (x ∷ xs) v w ws room t h =
    Tiles-short (b + x.size) e size xs v w ws room t.3 h.3

-- The descriptors after an allocation of `size` bytes in `v`.
abbrev pub allocated_part : Vad → ℕ → Vad
allocated_part v size = record (first_part v size) { free = false }

module _ (env : Mapper) (fuel directory size : ℕ) (physical : Bool) (m m' : env.Machine)
    (before : List Vad) (v : Vad) (unfit : AllUnfit size before) (free : v.free ≡ true)
    (s : Splittable v size) (aligned : v.base_address % page_size ≡ 0) (real : directory ≢ null)
    (enough : size / page_size + 1 < fuel)
    (reserved : reserve_list env directory physical
        (page_run v.base_address (size / page_size + 1))
        (env.set_directory directory m)
      ≡ some m') where
  pages : page_count env (first_part v size) ≡ size / page_size + 1
  pages = omega arith

  reserve_first :
      reserve_pages env fuel (first_part v size) directory physical m
      ≡ (ok tt, env.set_directory (env.current_directory m) m')
  reserve_first =
      reserve_pages_list env fuel (first_part v size) directory physical m m' (omega (arith, pages))
        (omega arith) (omega (arith, s.room, s.low, aligned)) (rw pages reserved)

  -- Allocate takes the first descriptor that fits, splits it, reserves every page of its first
  -- part, and answers it. The chain behind it does not matter: it is dropped.
  pub allocate_lem :
      (behind : List Vad)
      → allocate env fuel true size directory physical (before ++ v ∷ behind) m
        ≡ outcome
            (ok (length before))
            (before ++ allocated_part v size ∷ second_part v size ∷ [])
            (env.set_directory (env.current_directory m) m')
  unfolding allocate reserve_at
  allocate_lem behind = ground (
    arith,
    look_for_free_vad_first size before v behind (omega (arith, s.positive)) unfit free
        (omega (arith, s.room)),
    get_elem?-length before behind v,
    s.room,
    s.low,
    apply_at-append before (v ∷ behind) (split true size),
    split_lem v size s behind,
    get_elem?-length before (second_part v size ∷ []) (first_part v size),
    reserve_first,
    set_used-length before (second_part v size ∷ []) (first_part v size),
  )

  -- If the first descriptor that fits is not the last one, begins above 0 at a page, exceeds the request
  -- by more than a page and ends below 2 ^ 32, if there is memory for the split, fuel for the pages of
  -- its first part, and each of these can be reserved in turn, then Allocate succeeds and loses the rest of the address space: the new chain no
  -- longer covers the addresses that the old one did.
  pub allocate_forgets :
      (b e : ℕ) (w : Vad) (ws : List Vad)
      → Tiles b e (before ++ v ∷ w ∷ ws)
      → let r = allocate env fuel true size directory physical (before ++ v ∷ w ∷ ws) m in
        (r.result ≡ ok (length before)) × ¬ Tiles b e r.chain
  allocate_forgets b e w ws t =
      rw (allocate_lem (w ∷ ws)) (refl, Tiles-short b e size before v w ws s.room t)

-- ===== src/Tests/Spaces.antt =====
-- Address spaces at concrete inputs. A process begins with one free descriptor from 0x40000000 up.
use lt_micros.Base.{ℕ, ◌≤◌, ◌≡◌, inl, refl, some, List, [], ◌∷◌, true, false, arith}
use lt_micros.Base.Bits.{holds_below, holds_below-at, test_bit, set_bit}
use lt_micros.Base.Status.{ok}
use lt_micros.Mapper.{Recorded, recorder, Mapping}
use lt_micros.Pmm.{get_free_page, find_page, find_bit, set_page_used}
use lt_micros.Pmm.Bitmap.{is_used}
use lt_micros.Vad.{Vad, look_for_free_vad}
use lt_micros.Vad.Lookup.{Tiles, look_for_free_vad_first}
use lt_micros.Vad.Split.{Splittable, second_part}
use lt_micros.Vad.Operations.{reserve_page, reserve_pages, allocate, flags_present}
use lt_micros.Vad.Reserve.{
  page_run, reserve_list, reserve_virtual, reserve_list_virtual, reserve_pages_list,
}
use lt_micros.Vad.Frames.{IsFull, IsSound, IsMapped, reserve_list-IsSound}
use lt_micros.Vad.Allocate.{allocated_part, allocate_forgets}
use lt_micros.Vad.Bump.{IsBump, allocate-IsBump}

abbrev whole : Vad
whole = record {
  base_address = 0x4000_0000;
  limit_address = 0xffff_ffff;
  size = 0xbfff_ffff;
  free = true;
}

whole-Splittable : Splittable whole 0x4000
whole-Splittable = omega arith

-- A descriptor in use, a free one, and another in use.
abbrev in_use : Vad
in_use = record { base_address = 0x1000; limit_address = 0x3000; size = 0x2000; free = false }

abbrev gap : Vad
gap = record { base_address = 0x3000; limit_address = 0x9000; size = 0x6000; free = true }

abbrev behind : Vad
behind = record { base_address = 0x9000; limit_address = 0xa000; size = 0x1000; free = false }

abbrev three : List Vad
three = in_use ∷ gap ∷ behind ∷ []

three-Tiles : Tiles 0x1000 0xa000 three
three-Tiles = omega arith

look_for_free_vad_first_example : look_for_free_vad 0x1000 three ≡ ok 1
look_for_free_vad_first_example =
    look_for_free_vad_first 0x1000 (in_use ∷ []) gap (behind ∷ []) (omega arith) (inl refl, tt) refl
      (omega arith)

-- Two bytes of bitmap: pages 3 to 15 are free.
abbrev machine : Recorded
machine = record { bitmap = 7 ∷ 0 ∷ []; current = 0x1000; mapped = [] }

abbrev exhausted : Recorded
exhausted = record { bitmap = 255 ∷ []; current = 0x1000; mapped = [] }

exhausted-IsFull : IsFull exhausted.bitmap
unfolding is_used test_bit holds_below
exhausted-IsFull q h = holds_below-at q 8 (is_used exhausted.bitmap) h all_used
  where
    all_used : holds_below 8 (is_used exhausted.bitmap) ≡ true
    all_used = refl

reserve_pages_list_example : reserve_pages recorder 9 in_use 0x7000 false machine ≡ (
  ok tt,
  record (reserve_virtual recorder 0x7000
      (page_run 0x1000 2)
      (record machine { current = 0x7000 })) { current = 0x1000 },
)
reserve_pages_list_example =
    reserve_pages_list recorder 9 in_use 0x7000 false machine _ (omega arith) (omega arith)
      (omega arith) (reserve_list_virtual recorder 0x7000 _ _)

machine-IsSound : IsSound machine
machine-IsSound = record { bytes = omega arith; size = omega arith; owned = tt }

abbrev mapping : ℕ → ℕ → Mapping
mapping v p = record {
  v_addr = v;
  p_addr = p;
  flags = flags_present;
  directory = 0x7000;
  current = 0x1000;
}

abbrev reserved : Recorded
reserved = record {
  bitmap = 31 ∷ 0 ∷ [];
  current = 0x1000;
  mapped = mapping 0x4000 0x4000 ∷ mapping 0x3000 0x3000 ∷ [];
}

reserve_run : reserve_list recorder 0x7000 true (0x3000 ∷ 0x4000 ∷ []) machine ≡ some reserved
unfolding reserve_list reserve_page get_free_page find_page find_bit set_page_used test_bit set_bit
reserve_run = refl

left_over : ¬ IsFull reserved.bitmap
unfolding is_used test_bit
left_over h = cc (h 9 (omega arith))

reserve_list-IsSound_example :
    IsSound reserved × IsMapped 0x7000 0x1000 (0x3000 ∷ 0x4000 ∷ []) [] reserved.mapped
reserve_list-IsSound_example =
    reserve_list-IsSound 0x7000 (0x3000 ∷ 0x4000 ∷ []) machine reserved machine-IsSound reserve_run
      left_over

whole-IsBump : IsBump 0x4000_0000 0xffff_ffff [] whole
whole-IsBump = record {
  tiles = omega arith;
  in_use = tt;
  free = refl;
  aligned = refl;
  based = omega arith;
  low = omega arith;
}

allocate-IsBump_example :
    let r = allocate recorder 9 true 0x4000 0x7000 false (whole ∷ []) machine in
    (r.result ≡ ok 0)
    × (r.chain ≡ allocated_part whole 0x4000 ∷ second_part whole 0x4000 ∷ [])
    × IsBump 0x4000_0000 0xffff_ffff (allocated_part whole 0x4000 ∷ []) (second_part whole 0x4000)
    × (0x4000 ≤ (allocated_part whole 0x4000).size)
allocate-IsBump_example =
    allocate-IsBump recorder 9 0x7000 0x4000_0000 0xffff_ffff 0x4000 machine [] whole whole-IsBump
      (omega arith) (omega arith) (omega arith) (omega arith)

gap-Splittable : Splittable gap 0x1000
gap-Splittable = omega arith

allocate_forgets_example :
    let r = allocate recorder 9 true 0x1000 0x7000 false three machine in
    (r.result ≡ ok 1) × ¬ Tiles 0x1000 0xa000 r.chain
allocate_forgets_example =
    allocate_forgets recorder 9 0x7000 0x1000 false machine _ (in_use ∷ []) gap (inl refl, tt) refl
      gap-Splittable refl (omega arith) (omega arith) (reserve_list_virtual recorder 0x7000 _ _)
      0x1000 0xa000 behind [] three-Tiles

-- ===== src/Tests/Paging.antt =====
-- Page tables and page faults at concrete inputs: a directory at 0x1000 with one table, at 0x2000, for
-- the addresses from 0x40000000 on.
use lt_micros.Base.{◌≡◌, refl, none, [], ◌∷◌, true, false, arith, if◌then◌else◌, ◌==◌}
use lt_micros.Base.Bits.{test_bit}
use lt_micros.Base.Status.{ok}
use lt_micros.Mapper.{Recorded, recorder}
use lt_micros.Pmm.{get_free_page, find_page, find_bit}
use lt_micros.Vad.{Vad, look_for_vad_from_address, vad_from}
use lt_micros.Vad.Lookup.{Holder}
use lt_micros.Vmm.{Vmm, Memory, translate, get_physical_address_of, add_page_to_page_directory}
use lt_micros.Vmm.Machine.{tables}
use lt_micros.Vmm.Walk.{get_physical_address_of-translate}
use lt_micros.Vmm.Mapping.{HasTables, Maps, add_page_to_page_directory-Maps}
use lt_micros.Process.{Process, resolve_page_fault}
use lt_micros.Process.Mapped.{Served, resolve_page_fault-Served}
use lt_micros.Process.Faults.{Resolves, resolve_page_fault-Resolves}

abbrev memory : Memory
memory a = if a == 0x1400 then 0x2007 else if a == 0x1ffc then 0x1003 else 0

memory-HasTables : HasTables memory 0x1000
memory-HasTables = record {
  recursive = record { aligned = refl; present = refl; itself = refl };
  apart = λ v low p. ground arith;
  distinct = λ v u low other differ p q. ground arith;
}

abbrev machine : Vmm
machine = record {
  memory = memory;
  cr3 = 0x1000;
  saved = 0;
  pool = record {
    blocks = λ i. record { available = true; addr = 0; next = none; prev = none };
    avail_page_list = none;
    used_page_list = none;
    bitmap = 7 ∷ 0 ∷ [];
    mapped = [];
  };
}

get_physical_address_of-translate_example : get_physical_address_of machine 0x1000 ≡ ok 0
unfolding translate
get_physical_address_of-translate_example =
    get_physical_address_of-translate machine 0x1000 memory-HasTables.recursive (omega arith)

add_page_to_page_directory-Maps_example :
    (after : Vmm) × ((add_page_to_page_directory 0x4000_1234 0x5000 7 machine ≡ ok after)
      × Maps machine 0x4000_1234 0x5000 7 after)
add_page_to_page_directory-Maps_example =
    add_page_to_page_directory-Maps machine 0x4000_1234 0x5000 7 memory-HasTables (omega arith) refl

abbrev heap_vad : Vad
heap_vad = record {
  base_address = 0x4000_0000;
  limit_address = 0x4000_4000;
  size = 0x4000;
  free = false;
}

abbrev process : Process
process = record {
  pid = 1;
  page_directory = 0x1000;
  main_thread = 0;
  default_heap = record { base_address = 0x4000_0000; limit_address = 0x4000_0000; vad = 0 };
  vads = heap_vad ∷ [];
}

heap_found : look_for_vad_from_address 0x4000_1234 process.vads ≡ ok 0
unfolding look_for_vad_from_address vad_from
heap_found = refl

page_found : (get_free_page machine.pool.bitmap).0 ≡ 0x3000
unfolding get_free_page find_page find_bit test_bit
page_found = refl

abbrev heap_holds : Holder 0x4000_1234 process.vads 0
heap_holds = record { vad = heap_vad; there = refl; from = omega arith; below = omega arith }

resolve_page_fault-Served_example :
    (after : Vmm) × ((resolve_page_fault tables 0x4000_1234 process (ok machine)
        ≡ (ok tt, ok after))
      × Served 0x4000_1234 0x3000 process machine after)
resolve_page_fault-Served_example =
    resolve_page_fault-Served 0x4000_1234 0 0x3000 process machine (omega arith) (omega arith)
      heap_found heap_holds refl page_found (omega arith) refl memory-HasTables refl

-- A machine whose pages 3 to 15 are free, without a mapping.
abbrev recorded : Recorded
recorded = record { bitmap = 7 ∷ 0 ∷ []; current = 0x5000; mapped = [] }

resolve_page_fault-Resolves_example :
    Resolves 0x4000_1234 0x4000_0000 0x4000_4000 process recorded
      (resolve_page_fault recorder 0x4000_1234 process recorded)
resolve_page_fault-Resolves_example =
    resolve_page_fault-Resolves 0x4000_1234 0x4000_0000 0x4000_4000 process recorded (omega arith)
      (omega arith) (record { bytes = omega arith; size = omega arith; owned = tt })

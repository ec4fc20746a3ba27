-- ===== src/Tests/Calls.antt =====
-- What programs do through the library and the system calls, and how they are loaded, at concrete
-- inputs.
use lt_micros.Base.{
  ℕ, ◌+◌, ◌*◌, ◌≤◌, ◌<◌, ◌≡◌, ◌≢◌, refl, ◌⊎◌, none, some, List, [], ◌∷◌, ◌++◌, true, false, arith,
}
use lt_micros.Base.Words.{null, page_size}
use lt_micros.Base.Status.{ok}
use lt_micros.StdLib.{str_cmp, str_cmp_from}
use lt_micros.KernelList.Walk.{find_first}
use lt_micros.IpcBuffer.{IpcBuffer}
use lt_micros.Ipc.{Memory, is_id_used}
use lt_micros.Process.{Process, allocate_memory_at_address}
use lt_micros.Mapper.{Recorded, recorder}
use lt_micros.Module.{Section, map_sections, map_sections-copies_of}
use lt_micros.Process.HeapLimit.{HeapWithin, Grown}
use lt_micros.Syscalls.{UserMemory, Kernel, execute_syscall, sys_sbrk}
use lt_micros.Syscalls.Servers.{regs, running_as}
use lt_micros.Syscalls.Sbrk.{execute_syscall-sbrk}
use lt_micros.UserLib.Ipc.{create_server, connect_to_server, create_server-connect_to_server}
use lt_micros.Base.Bits.{test_bit, set_bit}
use lt_micros.Pmm.{get_free_page, find_page, find_bit, set_page_used}
use lt_micros.Vad.{look_for_free_vad_at, split_at_address}
use lt_micros.Vad.Operations.{allocate_at_address, apply_at, reserve_pages, reserve_page, set_used}
use lt_micros.Heap.{Block, total}
use lt_micros.UserLib.Malloc.{Malloc, allocate, region, take_block, allocate_passes_over}

abbrev process : Process
process = record {
  pid = 1;
  page_directory = 0x1000;
  main_thread = 0;
  default_heap = record { base_address = 0x4000_0000; limit_address = 0x4000_1000; vad = 0 };
  vads =
      record {
        base_address = 0x4000_0000;
        limit_address = 0x4000_4000;
        size = 0x4000;
        free = false;
      }
      ∷ [];
}

process-HeapWithin : HeapWithin process
process-HeapWithin = record {
  vad = record {
    base_address = 0x4000_0000;
    limit_address = 0x4000_4000;
    size = 0x4000;
    free = false;
  };
  there = refl;
  from = omega arith;
  below = omega arith;
  word = omega arith;
}

abbrev buffer : IpcBuffer
buffer = record {
  pages = [];
  write_page = none;
  write_ptr = 0;
  read_page = none;
  read_in = 0;
  read_ptr = 0;
  read_limit = 0;
  memory = λ page i. i;
  next_page = 5;
  supply = 3;
  ready_to_read = false;
}

abbrev memory : Memory
memory = record { for_object = true; for_id = true; for_cell = true; buffer = buffer; lock = 0 }

-- "fs" stands at every address.
abbrev user : UserMemory
user = record {
  text = λ address. 102 ∷ 115 ∷ [];
  bytes = λ address size. [];
  receive = λ address. record {
    ipc_handle = 1;
    buffer = 0x4000_0000;
    size = 4;
    read_bytes = 0x4000_0010;
  };
}

abbrev kernel : Kernel
kernel = record {
  process = none;
  thread = none;
  ipc = record { objects = []; handle_count = 0; low_word = 0 };
  printed = [];
  screen_lock = 0;
}

create_server-connect_to_server_example :
    (k' : Kernel) × (create_server memory user 0x4000_0000 0 (running_as 0x5000 process kernel)
      ≡ (ok (0, 1), running_as 0x5000 process k'))
    × ((u2 : UserMemory) (address2 name2 old2 : ℕ) (p2 : Process)
        → u2.text name2 ≡ user.text 0x4000_0000
        → address2 ≢ null
        → name2 ≢ null
        → (connect_to_server memory u2 name2 (running_as address2 p2 k')
            ≡ (ok (0, some 1), running_as address2 p2 k'))
          × (create_server memory u2 name2 old2 (running_as address2 p2 k')
              ≡ (ok (10, old2), running_as address2 p2 k')))
unfolding is_id_used find_first str_cmp str_cmp_from
create_server-connect_to_server_example =
    create_server-connect_to_server memory user 0x5000 0x4000_0000 0 process kernel
      (omega arith, (omega arith, tt)) refl refl refl refl (omega arith) (omega arith)

execute_syscall-sbrk_example :
    ((0x4000_1000 + 3 * page_size ≤ process-HeapWithin.vad.limit_address)
      × ((block : ℕ) × (q : Process) × Grown 3 process block q
          × (execute_syscall memory user (regs sys_sbrk 3 0 0) (running_as 0x5000 process kernel)
              ≡ (ok (regs block 3 0 0, []), running_as 0x5000 q kernel))))
    ⊎ ((process-HeapWithin.vad.limit_address < 0x4000_1000 + 3 * page_size)
        × (execute_syscall memory user (regs sys_sbrk 3 0 0) (running_as 0x5000 process kernel)
            ≡ (ok (regs 0 3 0 0, []), running_as 0x5000 process kernel)))
execute_syscall-sbrk_example =
    execute_syscall-sbrk memory user kernel 0x5000 3 0 0 process process-HeapWithin (omega arith)
      (omega arith)

-- A page of which the first 100 bytes are in use, and the rest is free.
abbrev taken_part : Block
taken_part = record { size = 100; used = true }

abbrev rest_part : Block
rest_part = record { size = 3996; used = false }

abbrev heap : Malloc
heap = record { base = 0x4000_0000; blocks = taken_part ∷ rest_part ∷ []; last = 0x4000_0000 }

allocate_passes_over_example :
    allocate (λ address pages. true) 2 200 [] (taken_part ∷ rest_part ∷ []) heap
    ≡ ok (
      0x4000_1004,
      record heap {
        last = 0x4000_1000;
        blocks = (taken_part ∷ rest_part ∷ []) ++ (take_block 200 (region 1) ++ []);
      },
    )
unfolding total
allocate_passes_over_example =
    allocate_passes_over (λ address pages. true) 0 200 [] (rest_part ∷ []) taken_part heap
      (omega arith) refl tt refl (omega arith) refl

-- A program whose second section is the last one with an address.
abbrev sections : List Section
sections =
    record { offset = 0x1000; vaddr = 0x4000_5000; mem_size = 100 }
    ∷ record { offset = 0x2000; vaddr = 0x4000_9000; mem_size = 60 }
    ∷ record { offset = 0; vaddr = 0; mem_size = 0 }
    ∷ []

abbrev new_process : Process
new_process = record {
  pid = 2;
  page_directory = 0x2000;
  main_thread = 0;
  default_heap = record { base_address = 0; limit_address = 0; vad = 0 };
  vads =
      record {
        base_address = 0x4000_0000;
        limit_address = 0xffff_ffff;
        size = 0xbfff_ffff;
        free = true;
      }
      ∷ [];
}

-- Two bytes of bitmap: pages 3 to 15 are free.
abbrev machine : Recorded
machine = record { bitmap = 7 ∷ 0 ∷ []; current = 0x1000; mapped = [] }

map_sections-copies_of_example :
    (map_sections recorder 2 0x10_0000
      (λ left. true)
      (λ left. true)
      sections
      new_process
      machine).copies
    ≡ record { source = 0x10_1000; dest = 0x4000_5000; size = 100 }
      ∷ record { source = 0x10_2000; dest = 0x4000_9000; size = 60 }
      ∷ []
unfolding map_sections allocate_memory_at_address allocate_at_address look_for_free_vad_at apply_at
    split_at_address reserve_pages reserve_page get_free_page find_page find_bit test_bit set_used
    set_page_used set_bit
map_sections-copies_of_example =
    map_sections-copies_of recorder 2 0x10_0000 (λ left. true) (λ left. true) sections new_process
      machine (refl, (refl, tt)) refl

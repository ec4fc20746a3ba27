-- ===== src/Tests/Processes.antt =====
-- Processes and threads at concrete inputs.
use lt_micros.Base.{ℕ, ◌+◌, ◌*◌, ◌≤◌, ◌<◌, ◌≡◌, refl, ◌⊎◌, [], ◌∷◌, true, false, arith}
use lt_micros.Base.Status.{ok, err, process_heap_limit_reached}
use lt_micros.Mapper.{Recorded}
use lt_micros.Scheduler.{running_state, init_state}
use lt_micros.Thread.{
  Thread, Registers, KernelStack, InterruptContext, NewThread, save_state, start_or_resume, resumed,
}
use lt_micros.Thread.Frames.{IsContext, start_or_resume-save_state}
use lt_micros.Process.{Process, NewProcess, increase_heap}
use lt_micros.Process.HeapLimit.{HeapWithin, Grown, increase_heap-HeapWithin}
use lt_micros.Process.Creation.{whole_space}

abbrev process : Process
process = record {
  pid = 1;
  page_directory = 0x1000;
  main_thread = 0;
  default_heap = record { base_address = 0x4000_0000; limit_address = 0x4000_1000; vad = 0 };
  vads =
      record {
        base_address = 0x4000_0000;
        limit_address = 0x4000_4000;
        size = 0x4000;
        free = false;
      }
      ∷ [];
}

process-HeapWithin : HeapWithin process
process-HeapWithin = record {
  vad = record {
    base_address = 0x4000_0000;
    limit_address = 0x4000_4000;
    size = 0x4000;
    free = false;
  };
  there = refl;
  from = omega arith;
  below = omega arith;
  word = omega arith;
}

increase_heap-HeapWithin_example :
    ((0x4000_1000 + 3 * 4096 ≤ process-HeapWithin.vad.limit_address)
      × ((block : ℕ) × (q : Process) × (increase_heap 3 1 process ≡ (ok block, q))
          × Grown 3 process block q))
    ⊎ ((process-HeapWithin.vad.limit_address < 0x4000_1000 + 3 * 4096)
        × (increase_heap 3 1 process ≡ (err process_heap_limit_reached, process)))
increase_heap-HeapWithin_example =
    increase_heap-HeapWithin 3 1 process process-HeapWithin (omega arith) (omega arith)
      (omega arith)

abbrev granted : NewProcess
granted = record { for_process = true; memory = process; for_list = true; for_vad = true }

abbrev machine : Recorded
machine = record { bitmap = 7 ∷ 0 ∷ []; current = 0x1000; mapped = [] }

abbrev fresh : Process
fresh = record process { vads = whole_space ∷ [] }

abbrev registers : Registers
registers = record {
  eax = 1;
  ebx = 2;
  ecx = 3;
  edx = 4;
  ebp = 0x4000_5000;
  esp = 0x10_0000;
  esi = 7;
  edi = 8;
  eip = 0x4000_0010;
  eflags = 0x202;
  cs = 0x1b;
  ss = 0;
  ds = 0x23;
  es = 0x23;
  fs = 0x23;
  gs = 0x23;
}

abbrev context : InterruptContext
context = record { saved = registers; esp_i = 0x4000_4ff0; ss_i = 0x23 }

abbrev stack : KernelStack
stack = record { esp0 = 0x10_0ffc; ss0 = 0x10 }

abbrev thread : Thread
thread = record {
  tid = 3;
  state = init_state;
  process = 0x9000;
  neighbor = 0;
  privilege_level = 1;
  thread_priority = 0;
  tics_on_resume = 0;
  kstack = stack;
  regs = registers;
}

context-IsContext : IsContext context
context-IsContext = omega arith

start_or_resume-save_state_example :
    let r = start_or_resume 0x7000 99 (save_state stack context thread) in
    (resumed r.2 ≡ record registers { ss = 0x23; esp = 0x4000_4ff0; eax = 0x20; ds = 0x23 })
    × (r.1 ≡ stack)
    × (r.2.privilege ≡ 1)
    × (r.0.state ≡ running_state)
    × (r.2.directory ≡ 0x7000)
start_or_resume-save_state_example =
    start_or_resume-save_state stack context thread context-IsContext 0x7000 99 (omega arith)

abbrev new_thread : NewThread
new_thread = record { allocated = true; memory = thread; v_addr = 0x1000_0000 }

-- ===== src/Syscalls/Sbrk.antt =====
-- The system call that gives memory to the heap of a process.
use lt_micros.Base.{ℕ, ◌+◌, ◌*◌, ◌≤◌, ◌<◌, ◌≡◌, ◌≢◌, ap, ◌⊎◌, inl, inr, [], arith}
use lt_micros.Base.Words.{page_size, u32_mod}
use lt_micros.Base.Status.{Run, ok}
use lt_micros.Process.{Process}
use lt_micros.Process.HeapLimit.{HeapWithin, Grown, increase_heap-HeapWithin}
use lt_micros.Ipc.{Memory}
use lt_micros.Syscalls.{UserMemory, Kernel, answer_block, execute_syscall, sys_sbrk}
use lt_micros.Syscalls.Servers.{regs, running_as}

module _ (memory : Memory) (u : UserMemory) (k : Kernel) where
  -- The system call for pages of the heap leaves in eax the address of the new block, which starts at
  -- the old limit of the heap and ends at the new one, if the descriptor of the heap has room for it;
  -- and else 0, and the process as it is.
  pub execute_syscall-sbrk :
      (address nb_pages ecx edx : ℕ) (p : Process) (w : HeapWithin p)
      → nb_pages ≢ 0
      → p.default_heap.limit_address + nb_pages * page_size < u32_mod
      → ((p.default_heap.limit_address + nb_pages * page_size ≤ w.vad.limit_address)
          × ((block : ℕ) × (q : Process) × Grown nb_pages p block q
              × (execute_syscall memory u (regs sys_sbrk nb_pages ecx edx) (running_as address p k)
                  ≡ (ok (regs block nb_pages ecx edx, []), running_as address q k))))
        ⊎ ((w.vad.limit_address < p.default_heap.limit_address + nb_pages * page_size)
            × (execute_syscall memory u (regs sys_sbrk nb_pages ecx edx) (running_as address p k)
                ≡ (ok (regs 0 nb_pages ecx edx, []), running_as address p k)))
  unfolding execute_syscall answer_block
  execute_syscall-sbrk address nb_pages ecx edx p w some_pages small =
      let answered = λ (x : Run ℕ × Process).
        answer_block x.0 (regs sys_sbrk nb_pages ecx edx) (running_as address x.1 k) in
      elim (increase_heap-HeapWithin nb_pages 1 p w some_pages (omega arith) small) [
        | inl (fits, (block, q, e, grown)) ↦ inl (fits, (block, q, grown, ap answered e))
        | inr (full, e) ↦ inr (full, ap answered e)
      ]

-- ===== src/Thread/Frames.antt =====
-- What an interrupted thread is resumed with, and what a new one begins with.
use lt_micros.Base.{ℕ, ◌+◌, ◌*◌, ◌/◌, ◌%◌, ◌<◌, ◌≡◌, ◌≢◌, true, arith, if◌then◌else◌, ◌==◌}
use lt_micros.Base.Words.{null, add32}
use lt_micros.Base.Status.{ok}
use lt_micros.Scheduler.{init_state, running_state, priority_normal}
use lt_micros.Thread.{
  Thread, KernelStack, InterruptContext, save_state, start_or_resume, resumed, kernel_code_selector,
  kernel_data_selector, sa_io, user_code_selector_with_rpl, user_data_selector_with_rpl, pvl_kernel,
  pvl_user, NewThread, create_user_thread, stack_top,
}

-- The selectors are of 16 bits.
pub record IsContext (context : InterruptContext) : Type 0 where
  pub cs : context.saved.cs < 65536
  pub ds : context.saved.ds < 65536
  pub es : context.saved.es < 65536
  pub fs : context.saved.fs < 65536
  pub gs : context.saved.gs < 65536
  pub ss : context.ss_i < 65536

module _ (tss : KernelStack) (context : InterruptContext) (t : Thread) (i : IsContext context)
    (directory tics : ℕ) where
  -- A user thread that is saved in an interrupt is resumed with the registers that it had, on the stack
  -- that it had, but for two: ds is 0x23, and the lower half of eax is 0x20. gTss is as it was when the
  -- thread was saved.
  pub start_or_resume-save_state :
      context.saved.cs ≢ kernel_code_selector
      → let r = start_or_resume directory tics (save_state tss context t) in
        (resumed r.2 ≡ record context.saved {
          ss = context.ss_i;
          esp = context.esp_i;
          eax = context.saved.eax / 65536 * 65536 + 0x20;
          ds = 0x23;
        })
        × (r.1 ≡ tss)
        × (r.2.privilege ≡ pvl_user)
        × (r.0.state ≡ running_state)
        × (r.2.directory ≡ directory)
  unfolding start_or_resume save_state resumed
  start_or_resume-save_state user = ground (arith, i.cs, i.ds, i.es, i.fs, i.gs, i.ss)

  -- A kernel thread is resumed likewise, above the three words that the processor pushed on its stack.
  pub start_or_resume-save_state_kernel :
      context.saved.cs ≡ kernel_code_selector
      → let r = start_or_resume directory tics (save_state tss context t) in
        (resumed r.2 ≡ record context.saved {
          ss = tss.ss0;
          esp = add32 context.saved.esp 12;
          eax = context.saved.eax / 65536 * 65536 + 0x20;
          ds = 0x23;
        })
        × (r.1 ≡ tss)
        × (r.2.privilege ≡ pvl_kernel)
  unfolding start_or_resume save_state resumed
  start_or_resume-save_state_kernel kernel = ground (arith, i.cs, i.ds, i.es, i.fs, i.gs, i.ss)

-- A new user thread, in the memory that HeapAlloc gave.
abbrev pub new_user_thread : NewThread → (entry_addr process attribute count : ℕ) → Thread
new_user_thread new entry_addr process attribute count = record new.memory {
  tid = count;
  state = init_state;
  process = process;
  neighbor = null;
  privilege_level = pvl_user;
  thread_priority = priority_normal;
  kstack = record { esp0 = stack_top new.v_addr; ss0 = kernel_data_selector };
  regs = record new.memory.regs {
    eax = 0;
    ecx = 0;
    edx = 0;
    edi = 0;
    esi = 0;
    ebp = new.memory.regs.esp;
    eip = entry_addr;
    eflags = if attribute % 2 == sa_io then 0x3a00 else 0x200;
    cs = user_code_selector_with_rpl;
    ss = user_data_selector_with_rpl;
    ds = user_data_selector_with_rpl;
    es = user_data_selector_with_rpl;
    fs = user_data_selector_with_rpl;
    gs = user_data_selector_with_rpl;
  };
}

-- Given memory, an entry address and a process, CreateUserThread succeeds with a thread of the next
-- number that is neither running nor linked. It is started at its entry address with the selectors of
-- user tasks, and gTss then has the top of its page as the kernel's stack; ebx is what the memory held.
pub create_user_thread-starts :
    (new : NewThread) (entry_addr process attribute count directory tics : ℕ)
    → new.allocated ≡ true
    → entry_addr ≢ 0
    → process ≢ null
    → let t = new_user_thread new entry_addr process attribute count in
      let r = start_or_resume directory tics t in
      (create_user_thread new entry_addr process attribute count ≡ (ok t, count + 1))
      × (r.2.regs.eip ≡ entry_addr)
      × (r.2.regs.cs ≡ user_code_selector_with_rpl)
      × (r.2.privilege ≡ pvl_user)
      × (r.2.regs.ebx ≡ new.memory.regs.ebx)
      × (r.1 ≡ record { esp0 = stack_top new.v_addr; ss0 = kernel_data_selector })
unfolding create_user_thread start_or_resume
create_user_thread-starts new entry_addr process attribute count directory tics a e p = ground arith

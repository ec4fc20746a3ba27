-- ===== src/Thread.antt =====
-- kernel/arch/x86/Thread.hpp and Thread.cpp, with kernel/task/ThreadManager.cpp: what a thread keeps of
-- the processor, how it is saved in an interrupt and resumed, and how it begins. A `Thread *` is an
-- address. What HeapAlloc and PageAlloc answer is an argument, as is what the new memory holds. The
-- assembly of _startOrResumeThread, in kernel/arch/x86/thread_utils.asm, is a function from its arguments
-- to the registers that the thread goes on with.
pub mod Frames
use lt_micros.Base.{
  ℕ, zero, suc, ◌+◌, ◌*◌, ◌/◌, ◌%◌, Bool, true, false, not, ◌&&◌, if◌then◌else◌, ◌==◌, ltb,
}
use lt_micros.Base.Words.{null, page_size, add32, sub32}
use lt_micros.Base.Status.{
  KeStatus, invalid_parameter, null_parameter, alloc_failed, Run, ok, err, fault, running, ◌>>=◌,
}
use lt_micros.Scheduler.{ThreadState, init_state, running_state, priority_normal}

-- The segment selectors of kernel/arch/x86/Gdt.hpp.
abbrev pub kernel_code_selector : ℕ
kernel_code_selector = 0x08

abbrev pub kernel_data_selector : ℕ
kernel_data_selector = 0x10

abbrev pub user_code_selector_with_rpl : ℕ
user_code_selector_with_rpl = 0x1b

abbrev pub user_data_selector_with_rpl : ℕ
user_data_selector_with_rpl = 0x23

-- enum PrivilegeLevel, and SA_IO of enum SecurityAttribute
abbrev pub pvl_kernel : ℕ
pvl_kernel = 0

abbrev pub pvl_user : ℕ
pvl_user = 1

abbrev pub sa_io : ℕ
sa_io = 1

-- A field of 16 bits.
abbrev pub u16 : ℕ → ℕ
u16 w = w % 65536

pub record Registers : Type 0 where
  pub eax : ℕ
  pub ebx : ℕ
  pub ecx : ℕ
  pub edx : ℕ
  pub ebp : ℕ
  pub esp : ℕ
  pub esi : ℕ
  pub edi : ℕ
  pub eip : ℕ
  pub eflags : ℕ
  pub cs : ℕ
  pub ss : ℕ
  pub ds : ℕ
  pub es : ℕ
  pub fs : ℕ
  pub gs : ℕ

-- `kstack`, and the two fields of the task state segment gTss that the kernel sets.
pub record KernelStack : Type 0 where
  pub esp0 : ℕ
  pub ss0 : ℕ

pub record Thread : Type 0 where
  pub tid : ℕ
  pub state : ThreadState
  pub process : ℕ
  pub neighbor : ℕ
  pub privilege_level : ℕ
  pub thread_priority : ℕ
  pub tics_on_resume : ℕ
  pub kstack : KernelStack
  pub regs : Registers

-- InterruptContext, with the two words that follow it when a user task was interrupted.
pub record InterruptContext : Type 0 where
  pub saved : Registers
  pub esp_i : ℕ
  pub ss_i : ℕ

-- Thread::AddNeighbor; `thread` may not be null.
unfoldable pub add_neighbor : (ℕ → Thread) → ℕ → ℕ → ℕ → Thread
add_neighbor threads self thread p =
    let linked = λ (q : ℕ).
      if q == thread && not ((threads self).neighbor == null)
      then record (threads q) { neighbor = (threads self).neighbor }
      else threads q in
    if thread == null
    then threads p
    else if p == self
    then record (linked p) { neighbor = thread }
    else linked p

-- The registers that SaveState copies for both kinds of task.
copied : Registers → Registers → Registers
copied context regs = record regs {
  eflags = context.eflags;
  cs = u16 context.cs;
  eip = context.eip;
  eax = context.eax;
  ebx = context.ebx;
  ecx = context.ecx;
  edx = context.edx;
  ebp = context.ebp;
  esi = context.esi;
  edi = context.edi;
  gs = u16 context.gs;
  fs = u16 context.fs;
  es = u16 context.es;
  ds = u16 context.ds;
}

-- Thread::SaveState with a context
unfoldable pub save_state : KernelStack → InterruptContext → Thread → Thread
unfolding copied
save_state tss context t =
    let regs = copied context.saved t.regs in
    let stack = record t { kstack = tss } in
    if regs.cs == kernel_code_selector
    then record stack { regs = record regs { ss = tss.ss0; esp = add32 context.saved.esp 12 } }
    else record stack { regs = record regs { ss = u16 context.ss_i; esp = context.esp_i } }

-- The arguments of _startOrResumeThread.
pub record Frame : Type 0 where
  pub directory : ℕ
  pub regs : Registers
  pub privilege : ℕ
  pub kss : ℕ
  pub kesp : ℕ

-- Thread::StartOrResume: the thread, gTss and the frame. `directory` is that of the process, and `tics`
-- the clock.
unfoldable pub start_or_resume : (directory tics : ℕ) → Thread → Thread × KernelStack × Frame
start_or_resume directory tics t = (
  record t { state = running_state; tics_on_resume = tics },
  t.kstack,
  record {
    directory = directory;
    regs = t.regs;
    privilege = if t.regs.cs == kernel_code_selector then pvl_kernel else pvl_user;
    kss = if t.regs.cs == user_code_selector_with_rpl then t.kstack.ss0 else t.regs.ss;
    kesp = if t.regs.cs == user_code_selector_with_rpl then t.kstack.esp0 else t.regs.esp;
  },
)

-- The registers that _startOrResumeThread leaves for the thread: the end of the interrupt takes the
-- lower half of eax and ds. A kernel thread goes on with the stack that was loaded before.
unfoldable pub resumed : Frame → Registers
resumed frame =
    let left = record frame.regs { eax = frame.regs.eax / 65536 * 65536 + 0x20; ds = 0x23 } in
    if frame.privilege == pvl_kernel then record left { ss = frame.kss; esp = frame.kesp } else left

-- The end of a stack page, less a pointer.
abbrev pub stack_top : ℕ → ℕ
stack_top v_addr = sub32 (add32 v_addr page_size) 4

selectors : ℕ → ℕ → Registers → Registers
selectors code segment regs = record regs {
  ss = segment;
  cs = code;
  ds = segment;
  es = segment;
  fs = segment;
  gs = segment;
  eax = 0;
  ecx = 0;
  edx = 0;
  edi = 0;
  esi = 0;
}

-- _InitUserThread; `v_addr` is that of the page for the kernel stack.
unfoldable pub init_user_thread : (v_addr attribute entry_addr : ℕ) → Thread → Run Thread
unfolding selectors
init_user_thread v_addr attribute entry_addr t =
    let regs = selectors user_code_selector_with_rpl user_data_selector_with_rpl t.regs in
    if entry_addr == 0
    then err invalid_parameter
    else ok (record t {
      regs = record regs {
        ebp = regs.esp;
        eip = entry_addr;
        eflags = if attribute % 2 == sa_io then 0x3a00 else 0x200;
      };
      kstack = record { esp0 = stack_top v_addr; ss0 = kernel_data_selector };
    })

-- _InitKernelThread
unfoldable pub init_kernel_thread : (v_addr entry_addr : ℕ) → Thread → Run Thread
unfolding selectors
init_kernel_thread v_addr entry_addr t =
    let regs = selectors kernel_code_selector kernel_data_selector t.regs in
    ok (record t {
      regs = record regs {
        esp = stack_top v_addr;
        ebp = stack_top v_addr;
        eip = entry_addr;
        eflags = 0x200;
      };
      kstack = record { esp0 = 0; ss0 = kernel_data_selector };
    })

-- What HeapAlloc and PageAlloc answer to CreateThread: whether there is memory, what it holds, and the
-- virtual address of the page.
pub record NewThread : Type 0 where
  pub allocated : Bool
  pub memory : Thread
  pub v_addr : ℕ

-- Thread::CreateThread with a process and a place for the result that are not null: the thread, and
-- the counter s_ThreadId.
unfoldable pub create_thread :
    NewThread → (entry_addr process priv_level attribute : ℕ) → ℕ → Run Thread × ℕ
unfolding init_user_thread init_kernel_thread
create_thread new entry_addr process priv_level attribute count =
    let begun =
      if priv_level == pvl_kernel
      then init_kernel_thread new.v_addr entry_addr new.memory
      else init_user_thread new.v_addr attribute entry_addr new.memory in
    if process == null
    then (err null_parameter, count)
    else if not (priv_level == pvl_user) && not (priv_level == pvl_kernel)
    then (err invalid_parameter, count)
    else if not new.allocated
    then (err alloc_failed, count)
    else elim begun [
      | ok t ↦ (
        ok (record t {
          tid = count;
          state = init_state;
          process = process;
          privilege_level = priv_level;
          neighbor = null;
          thread_priority = priority_normal;
        }),
        count + 1,
      )
      | err e ↦ (err e, count)
      | fault ↦ (fault, count)
      | running ↦ (running, count)
    ]

-- ThreadManager::CreateUserThread and CreateKernelThread with a place for the result
unfoldable pub create_user_thread :
    NewThread → (entry_addr process attribute : ℕ) → ℕ → Run Thread × ℕ
unfolding create_thread
create_user_thread new entry_addr process attribute count =
    if entry_addr == 0
    then (err invalid_parameter, count)
    else create_thread new entry_addr process pvl_user attribute count

unfoldable pub create_kernel_thread : NewThread → (entry_addr process : ℕ) → ℕ → Run Thread × ℕ
unfolding create_thread
create_kernel_thread new entry_addr process count =
    create_thread new entry_addr process pvl_kernel 0 count

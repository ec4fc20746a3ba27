-- ===== src/Process.antt =====
-- kernel/arch/x86/Process.hpp and Process.cpp, with kernel/task/ProcessManager.cpp and the page fault
-- handler of kernel/arch/x86/Exceptions/PageFault.cpp: processes over their address descriptors and a
-- machine. A `Thread *` and a place for a result are addresses. What the allocations answer is an
-- argument; of the children's list only whether it was made matters.
pub mod HeapLimit
pub mod Faults
pub mod Mapped
pub mod Creation
use lt_micros.Base.{
  ℕ, ◌+◌, Option, none, some, List, [], ◌∷◌, ◌++◌, Bool, true, false, not, ◌&&◌, ◌||◌,
  if◌then◌else◌, ◌%◌, ◌==◌, ltb, get_elem?,
}
use lt_micros.Base.Words.{null, page_size, add32, mul32}
use lt_micros.Base.Status.{
  KeStatus, failure, not_found, invalid_parameter, null_parameter, alloc_failed, unexpected,
  process_heap_limit_reached, Run, ok, err, fault, running, ◌>>=◌,
}
use lt_micros.Mapper.{Mapper}
use lt_micros.Vad.{Vad, create, look_for_vad_from_address}
use lt_micros.Vad.Operations.{Outcome, outcome, allocate, allocate_at_address, flags_present}
use lt_micros.Thread.{stack_top}

abbrev pub v_process_base_addr : ℕ
v_process_base_addr = 0x4000_0000

abbrev pub v_process_limit_addr : ℕ
v_process_limit_addr = 0xffff_ffff

-- 0x1000 * 0x4
abbrev pub default_heap_size : ℕ
default_heap_size = 0x4000

-- `vad` is the place of the heap's descriptor in the chain.
pub record ProcessHeap : Type 0 where
  pub base_address : ℕ
  pub limit_address : ℕ
  pub vad : ℕ

pub record Process : Type 0 where
  pub pid : ℕ
  pub page_directory : ℕ
  pub main_thread : ℕ
  pub default_heap : ProcessHeap
  pub vads : List Vad

-- Process::AddThread, as the new main thread and whether `thread` becomes a neighbor of the old one.
unfoldable pub add_thread : ℕ → Process → Process × Bool
add_thread thread p =
    if thread == null
    then (p, false)
    else if p.main_thread == null
    then (record p { main_thread = thread }, false)
    else (p, true)

heap_grown : ℕ → Process → Process
heap_grown limit p = record p { default_heap = record p.default_heap { limit_address = limit } }

-- Process::IncreaseHeap: the address of the new block.
unfoldable pub increase_heap : (nb_pages out : ℕ) → Process → Run ℕ × Process
unfolding heap_grown
increase_heap nb_pages out p =
    let limit = add32 p.default_heap.limit_address (mul32 nb_pages page_size) in
    if nb_pages == 0
    then (err invalid_parameter, p)
    else if out == null
    then (err null_parameter, p)
    else elim (get_elem? p.vads p.default_heap.vad) [
      | none ↦ (fault, p)
      | some v ↦
          if ltb v.limit_address limit
          then (err process_heap_limit_reached, p)
          else (ok p.default_heap.limit_address, heap_grown limit p)
    ]

-- What the allocations of Create answer: the process, with what its memory holds, the children's list,
-- and the first descriptor.
pub record NewProcess : Type 0 where
  pub for_process : Bool
  pub memory : Process
  pub for_list : Bool
  pub for_vad : Bool

-- Process::Create with a name and a place for the result; `directory` is what
-- CreateProcessPageDirectory answers, and `next_pid` is s_ProcessId.
unfoldable pub create_process : NewProcess → (directory next_pid : ℕ) → Run Process × ℕ
create_process new directory next_pid =
    let first = create new.for_vad v_process_base_addr 0xbfff_ffff true in
    if not new.for_process
    then (err alloc_failed, next_pid)
    else if not new.for_list
    then (err failure, next_pid)
    else elim first [
      | ok v ↦ (
        ok (record new.memory {
          page_directory = directory;
          pid = next_pid;
          main_thread = null;
          vads = v ∷ [];
        }),
        next_pid + 1,
      )
      | err e ↦ (err e, next_pid)
      | fault ↦ (fault, next_pid)
      | running ↦ (running, next_pid)
    ]

-- Process::CreateSystem; `kernel_directory` is gKernel.info.pPageDirectory. The other fields, mainThread
-- among them, are not set.
unfoldable pub create_system : NewProcess → (kernel_directory : ℕ) → Run Process
create_system new kernel_directory =
    if not new.for_process
    then err alloc_failed
    else if not new.for_list
    then err failure
    else ok (record new.memory { page_directory = kernel_directory; pid = 0 })

module _ (env : Mapper) where
  open env use {Machine, get_free_page, add_page, current_directory, set_directory}

  -- The address of the descriptor that an allocation answers.
  at_place : Process → Outcome Machine → Run ℕ × Process × Machine
  at_place p o =
      let q = record p { vads = o.chain } in
      elim o.result [
        | ok i ↦ elim (get_elem? o.chain i) [
          | none ↦ (fault, q, o.machine)
          | some v ↦ (ok v.base_address, q, o.machine)
        ]
        | err e ↦ (err e, q, o.machine)
        | fault ↦ (fault, q, o.machine)
        | running ↦ (running, q, o.machine)
      ]

  -- Process::AllocateMemory; Vad::Allocate with its fuel, and whether its split gets memory.
  unfoldable pub allocate_memory :
      (fuel : ℕ)
      → Bool
      → (size : ℕ) → Bool
      → (out : ℕ) → Process
      → Machine
      → Run ℕ × Process × Machine
  unfolding at_place
  allocate_memory fuel allocated size physical out p m =
      if size == 0
      then (err invalid_parameter, p, m)
      else if out == null
      then (err null_parameter, p, m)
      else at_place p (allocate env fuel allocated size p.page_directory physical p.vads m)

  -- Process::AllocateMemoryAtAddress
  unfoldable pub allocate_memory_at_address :
      (fuel : ℕ)
      → Bool
      → Bool
      → (address : ℕ) → Bool
      → (size : ℕ) → Process
      → Machine
      → Run ℕ × Process × Machine
  unfolding at_place
  allocate_memory_at_address fuel first then_split address physical size p m =
      if address == null
      then (err null_parameter, p, m)
      else if size == 0
      then (err invalid_parameter, p, m)
      else at_place p (
          allocate_at_address env fuel first then_split address size p.page_directory physical
            p.vads m)

  -- The default heap of a process, once its descriptor is found.
  heap_at : ℕ → ℕ → Process → Process
  heap_at i base p = record p {
    default_heap = record { base_address = base; limit_address = base; vad = i };
  }

  -- Thread::CreateDefaultStack: a page for the stack, and the top of it for `esp`. Its place for the
  -- result is the address of a local variable.
  unfoldable pub create_default_stack :
      (fuel : ℕ) → Bool → Process → Machine → Run ℕ × Process × Machine
  unfolding allocate_memory
  create_default_stack fuel allocated p m =
      let (r, q, n) = allocate_memory fuel allocated page_size true 1 p m in
      (r >>= λ base. ok (stack_top base), q, n)

  -- Process::CreateDefaultHeapAndStack: the status, `esp` of the main thread, the process and the
  -- machine. What CreateDefaultStack answers is not looked at.
  unfoldable pub create_default_heap_and_stack :
      (fuel : ℕ)
      → (heap_split stack_split : Bool) → Process
      → Machine
      → Run (Unit {0}) × Run ℕ × Process × Machine
  unfolding create_default_stack heap_at
  create_default_heap_and_stack fuel heap_split stack_split p m =
      let o = allocate env fuel heap_split default_heap_size p.page_directory false p.vads m in
      let q = record p { vads = o.chain } in
      elim o.result [
        | ok i ↦ elim (get_elem? o.chain i) [
          | none ↦ (fault, fault, q, o.machine)
          | some v ↦
              let s =
                create_default_stack fuel stack_split (heap_at i v.base_address q) o.machine in
              (ok tt, s.0, s.1, s.2)
        ]
        | err e ↦ (err e, err e, q, o.machine)
        | fault ↦ (fault, fault, q, o.machine)
        | running ↦ (running, running, q, o.machine)
      ]

  -- ResolvePageFault on a descriptor in use. Where GetFreePage answers null, the status is that of the
  -- search before it, which is a success.
  unfoldable pub map_fault : ℕ → Process → Machine → Run (Unit {0}) × Machine
  map_fault address p m =
      let (page, m') = get_free_page m in
      if page == null then (ok tt, m') else (
        ok tt,
        set_directory (current_directory m') (
            add_page address page flags_present p.page_directory
              (set_directory p.page_directory m')),
      )

  -- Process::ResolvePageFault. A failure of the search other than STATUS_NOT_FOUND leaves `vad` null,
  -- which is then followed.
  unfoldable pub resolve_page_fault : ℕ → Process → Machine → Run (Unit {0}) × Machine
  unfolding map_fault
  resolve_page_fault address p m =
      if address == null
      then (err null_parameter, m)
      else elim (look_for_vad_from_address address p.vads) [
        | ok i ↦ elim (get_elem? p.vads i) [
          | none ↦ (fault, m)
          | some v ↦ if v.free then (err unexpected, m) else map_fault address p m
        ]
        | err not_found ↦ (err not_found, m)
        | err e ↦ (fault, m)
        | fault ↦ (fault, m)
        | running ↦ (running, m)
      ]

  -- PageFaultExceptionHandler: whether the interrupted task goes on. With a debugger connected it
  -- always does; otherwise the processor is halted when the fault is not resolved.
  unfoldable pub page_fault_exception_handler :
      (connected : Bool) → (code cr2 : ℕ) → Process → Machine → Bool × Machine
  unfolding resolve_page_fault
  page_fault_exception_handler connected code cr2 p m =
      let (r, m') = resolve_page_fault cr2 p m in
      if code % 2 == 0
      then (elim r [ ok u ↦ true | err e ↦ connected | fault ↦ false | running ↦ false ], m')
      else (false, m)

-- ===== src/Scheduler.antt =====
-- kernel/task/Scheduler.hpp and Scheduler.cpp, with the thread fields that they touch
-- (kernel/arch/x86/Thread.hpp and Thread.cpp). A `Thread *` is an address; the threads are a
-- function from addresses. gClockDrv.tics is an argument. What _startOrResumeThread does with the
-- processor is not modelled: the state after it is that of the kernel when the switch is made.
pub mod Pick
pub mod Preempt
use lt_micros.Base.{
  ℕ, zero, suc, ◌+◌, ◌-◌, Option, none, some, List, [], ◌∷◌, Bool, true, false, not, ◌&&◌, ◌||◌,
  if◌then◌else◌, ◌==◌, ltb, leb,
}
use lt_micros.Base.Words.{null, sub32, add32}
use lt_micros.Base.Status.{Run, ok, fault, running}
use lt_micros.KernelList.{KernelList, create, push, top, enumerate}
use lt_micros.KernelList.Walk.{stop_at}

-- enum ThreadState
pub data ThreadState : Type 0 where
  init_state running_state paused waiting dead : ThreadState

pub record Thread : Type 0 where
  pub state : ThreadState
  pub priority : ℕ
  pub tics_on_resume : ℕ
  pub process : ℕ

pub record Scheduler : Type 0 where
  pub is_running : Bool
  pub threads_list : KernelList ℕ
  pub current_thread : ℕ
  pub nb_threads : ℕ
  pub threads : ℕ → Thread

-- THREAD_PRIORITY_NORMAL and THREAD_PRIORITY_MAX
abbrev pub priority_normal : ℕ
priority_normal = 0

abbrev pub priority_max : ℕ
priority_max = 2

abbrev pub default_thread_limit_working_time : ℕ
default_thread_limit_working_time = 100

-- RunnableThread(state)
abbrev pub runnable : ThreadState → Bool
runnable running_state = true
runnable init_state = true
runnable paused = true
runnable waiting = false
runnable dead = false

abbrev pub update : (ℕ → Thread) → ℕ → Thread → ℕ → Thread
update f p t q = if q == p then t else f q

-- Thread::RaisePriorityLevel and Thread::LowerPriorityLevel
unfoldable pub raise_priority_level : Thread → Thread
raise_priority_level t =
    if ltb t.priority priority_max then record t { priority = t.priority + 1 } else t

unfoldable pub lower_priority_level : Thread → Thread
lower_priority_level t =
    if ltb priority_normal t.priority then record t { priority = t.priority - 1 } else t

-- Scheduler::Init
abbrev pub init : (ℕ → Thread) → Scheduler
init threads = record {
  is_running = false;
  threads_list = create;
  current_thread = null;
  nb_threads = 0;
  threads = threads;
}

-- Scheduler::AddThread; the flag says whether the list found memory for its cell.
unfoldable pub add_thread : Bool → ℕ → Scheduler → Scheduler
add_thread allocated thread s = if thread == null then s else record s {
  current_thread = if s.current_thread == null then thread else s.current_thread;
  threads_list = push allocated s.threads_list (some thread);
  nb_threads = add32 s.nb_threads 1;
}

-- Scheduler::Start and Scheduler::Stop
unfoldable pub start : Scheduler → Scheduler
start s = record s { is_running = true }

unfoldable pub stop : Scheduler → Scheduler
stop s = record s { is_running = false }

-- A `void *` as the list holds it.
abbrev pub pointer : Option ℕ → ℕ
pointer none = null
pointer (some p) = p

-- The loop of _PickNextThread over the cells; `first` is what ListTop answers.
unfoldable pub pick_from : ℕ → Option ℕ → List (Option ℕ) → ℕ
pick_from current first [] = null
pick_from current first (d ∷ []) = if pointer d == current then pointer first else null
pick_from current first (d ∷ e ∷ cells) =
    let rest = pick_from current first (e ∷ cells) in
    if pointer d == current then pointer e else rest

-- Scheduler::_PickNextThread
unfoldable pub pick_next_thread : Scheduler → ℕ → ℕ
unfolding pick_from
pick_next_thread s current =
    if current == null
    then pointer (top s.threads_list)
    else pick_from current (top s.threads_list) (s.threads_list.head ∷ s.threads_list.rest)

-- LookForThreadWithHigherPriorityCallback asks this of a thread of the list.
abbrev pub outranks : (ℕ → Thread) → ℕ → ℕ → Bool
outranks threads thread p =
    ltb (threads thread).priority (threads p).priority && runnable (threads p).state

abbrev pub is_found : Option ℕ → Bool
is_found none = false
is_found (some p) = true

-- Scheduler::HasHigherThreadPriority
unfoldable pub has_higher_thread_priority : Scheduler → ℕ → Bool
has_higher_thread_priority s thread =
    if thread == null
    then false
    else is_found (enumerate (stop_at (outranks s.threads thread)) none s.threads_list).1

-- The kernel's state once `thread` has the processor: what _SwitchToThread writes after its checks,
-- and Thread::StartOrResume. SaveState fills the register image only.
unfoldable pub after_switch : ℕ → ℕ → Scheduler → Scheduler
after_switch tics thread s =
    let saved =
      update s.threads s.current_thread (record (s.threads s.current_thread) { state = paused }) in
    record s {
      current_thread = thread;
      threads =
          update saved thread
            (record (saved thread) { state = running_state; tics_on_resume = tics });
    }

-- Scheduler::_SwitchToThread
unfoldable pub switch_to_thread : ℕ → ℕ → Scheduler → Run Scheduler
unfolding after_switch
switch_to_thread tics thread s =
    if thread == null
    then fault
    else if s.current_thread == null
    then fault
    else ok (after_switch tics thread s)

-- The do-while loop of Schedules on fuel: the thread that it settles on, with the null pointer
-- that `foundThread` begins with. It asks for the successor of the current thread every time.
unfoldable pub find_thread : ℕ → Scheduler → Run ℕ
find_thread zero s = running
find_thread (suc fuel) s =
    let again = find_thread fuel s in
    let next = pick_next_thread s s.current_thread in
    if next == null && next == s.current_thread
    then ok null
    else if next == null
    then fault
    else if s.current_thread == null
    then fault
    else if leb (s.threads s.current_thread).priority (s.threads next).priority
        && runnable (s.threads next).state
    then ok next
    else again

-- The condition under which Schedules looks for another thread.
unfoldable pub must_reschedule : ℕ → Scheduler → Bool
must_reschedule tics s =
    (s.current_thread == null)
    || (ltb default_thread_limit_working_time
          (sub32 tics (s.threads s.current_thread).tics_on_resume)
        || (has_higher_thread_priority s s.current_thread
            || not (runnable (s.threads s.current_thread).state)))

switch_if_other : ℕ → Scheduler → Run ℕ → Run Scheduler
switch_if_other tics s (ok found) =
    if s.current_thread == found then ok s else switch_to_thread tics found s
switch_if_other tics s (Run.err e) = Run.err e
switch_if_other tics s fault = fault
switch_if_other tics s running = running

-- Scheduler::Schedules, with a context that is not null.
unfoldable pub schedules : ℕ → ℕ → Scheduler → Run Scheduler
unfolding switch_if_other must_reschedule find_thread switch_to_thread
schedules fuel tics s =
    if s.is_running && ltb 1 s.nb_threads
    then if must_reschedule tics s then switch_if_other tics s (find_thread fuel s) else ok s
    else ok s

-- Scheduler::GetCurrentProcess
unfoldable pub get_current_process : Scheduler → ℕ
get_current_process s =
    if s.current_thread == null then null else (s.threads s.current_thread).process

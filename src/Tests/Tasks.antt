-- ===== src/Tests/Tasks.antt =====
-- The scheduler on three threads, at the addresses 0x10, 0x20 and 0x30.
use lt_micros.Base.{ℕ, ◌≡◌, refl, some, [], ◌∷◌, true, arith, ◌==◌, if◌then◌else◌}
use lt_micros.Base.Status.{ok, running}
use lt_micros.KernelList.{enumerate, top}
use lt_micros.KernelList.Contents.{contents, keep}
use lt_micros.Scheduler.{
  Scheduler, Thread, ThreadState, running_state, paused, waiting, schedules, pick_next_thread,
  pick_from, must_reschedule, has_higher_thread_priority,
}
use lt_micros.Scheduler.Pick.{HasThreads}
use lt_micros.Scheduler.Preempt.{Preempts, Switched, schedules_endless, schedules_switches}

abbrev thread : ThreadState → ℕ → Thread
thread state priority = record {
  state = state;
  priority = priority;
  tics_on_resume = 40;
  process = 0x100;
}

-- The current thread is 0x10; the states of the others are given.
abbrev three : Thread → Thread → Scheduler
three second third = record {
  is_running = true;
  threads_list = record { head = some 0x10; rest = some 0x20 ∷ some 0x30 ∷ [] };
  current_thread = 0x10;
  nb_threads = 3;
  threads = λ p. if p == 0x10 then thread running_state 0 else if p == 0x20 then second else third;
}

abbrev ready : Scheduler
ready = three (thread paused 0) (thread paused 0)

-- The successor waits, while the third thread could run at a higher priority.
abbrev blocked : Scheduler
blocked = three (thread waiting 0) (thread paused 1)

ready-HasThreads : HasThreads ready (0x10 ∷ 0x20 ∷ 0x30 ∷ [])
unfolding contents keep
ready-HasThreads = record { filled = tt; held = refl }

blocked-HasThreads : HasThreads blocked (0x10 ∷ 0x20 ∷ 0x30 ∷ [])
unfolding contents keep
blocked-HasThreads = record { filled = tt; held = refl }

ready-Preempts : Preempts 200 ready
unfolding must_reschedule has_higher_thread_priority enumerate pick_next_thread pick_from top
ready-Preempts = record {
  started = refl;
  several = omega arith;
  due = refl;
  current = omega arith;
  successor = omega arith;
}

blocked-Preempts : Preempts 50 blocked
unfolding must_reschedule has_higher_thread_priority enumerate pick_next_thread pick_from top
blocked-Preempts = record {
  started = refl;
  several = omega arith;
  due = refl;
  current = omega arith;
  successor = omega arith;
}

schedules_switches_example :
    (s' : Scheduler) × (schedules 1 200 ready ≡ ok s')
    × Switched 200 (pick_next_thread ready 0x10) ready s'
unfolding pick_next_thread pick_from top
schedules_switches_example = schedules_switches 0 200 ready ready-Preempts refl (omega arith)

schedules_endless_example : schedules 1000 50 blocked ≡ running
unfolding pick_next_thread pick_from top
schedules_endless_example = schedules_endless 1000 50 blocked blocked-Preempts refl

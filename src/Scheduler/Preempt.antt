-- ===== src/Scheduler/Preempt.antt =====
-- When Schedules switches, to which thread, and when it does not come back.
use lt_micros.Base.{
  ℕ, zero, suc, ◌-◌, ◌<◌, ◌≤◌, ◌≡◌, ◌≢◌, refl, Option, none, some, List, Bool, true, false, ◌&&◌,
  arith, leb, ◌↔◌,
}
use lt_micros.Base.Words.{null, u32_mod}
use lt_micros.Base.Status.{ok, running}
use lt_micros.KernelList.Walk.{find_first, enumerate-find_first}
use lt_micros.Scheduler.{
  Scheduler, running_state, paused, runnable, pick_next_thread, find_thread, schedules,
  must_reschedule, after_switch, waiting, is_found, outranks, has_higher_thread_priority,
}
use lt_micros.Scheduler.Pick.{HasThreads}

-- The thread may take over from the current one: it does not rank below it, and it can run.
abbrev pub eligible : Scheduler → ℕ → Bool
eligible s next =
    leb (s.threads s.current_thread).priority (s.threads next).priority
    && runnable (s.threads next).state

-- Schedules gets as far as looking for another thread.
pub record Preempts (tics : ℕ) (s : Scheduler) : Type 0 where
  pub started : s.is_running ≡ true
  pub several : 1 < s.nb_threads
  pub due : must_reschedule tics s ≡ true
  pub current : s.current_thread ≢ null
  pub successor : pick_next_thread s s.current_thread ≢ null

find_thread_endless :
    (fuel : ℕ) (s : Scheduler)
    → s.current_thread ≢ null
    → pick_next_thread s s.current_thread ≢ null
    → eligible s (pick_next_thread s s.current_thread) ≡ false
    → find_thread fuel s ≡ running
unfolding find_thread
find_thread_endless zero s real there no_one = refl
find_thread_endless (suc fuel) s real there no_one =
    ground (arith, find_thread_endless fuel s real there no_one)

-- If the successor of the current thread ranks below it or cannot run, the loop of Schedules asks
-- for the same successor for ever: no amount of fuel brings a result, whatever other threads could
-- run.
pub schedules_endless :
    (fuel tics : ℕ) (s : Scheduler)
    → Preempts tics s
    → eligible s (pick_next_thread s s.current_thread) ≡ false
    → schedules fuel tics s ≡ running
unfolding schedules
schedules_endless fuel tics s p no_one =
    ground (arith, p.several, find_thread_endless fuel s p.current p.successor no_one)

-- What a switch to `next` leaves: `next` runs, the thread that ran is paused, whatever its state
-- was, and nothing else changes.
pub record Switched (tics next : ℕ) (s s' : Scheduler) : Type 0 where
  pub now : s'.current_thread ≡ next
  pub resumed :
      s'.threads next ≡ record (s.threads next) { state = running_state; tics_on_resume = tics }
  pub stopped : s'.threads s.current_thread ≡ record (s.threads s.current_thread) { state = paused }
  pub others : (t : ℕ) → t ≢ next → t ≢ s.current_thread → s'.threads t ≡ s.threads t
  pub same_list : s'.threads_list ≡ s.threads_list
  pub same_count : s'.nb_threads ≡ s.nb_threads

after_switch-Switched :
    (tics next : ℕ) (s : Scheduler)
    → next ≢ s.current_thread
    → Switched tics next s (after_switch tics next s)
unfolding after_switch
after_switch-Switched tics next s ne = record {
  now = refl;
  resumed = ground arith;
  stopped = ground arith;
  others = λ t n c. ground arith;
  same_list = refl;
  same_count = refl;
}

find_thread_next :
    (fuel : ℕ) (s : Scheduler)
    → s.current_thread ≢ null
    → pick_next_thread s s.current_thread ≢ null
    → eligible s (pick_next_thread s s.current_thread) ≡ true
    → find_thread (suc fuel) s ≡ ok (pick_next_thread s s.current_thread)
unfolding find_thread
find_thread_next fuel s real there fit = ground arith

-- If the successor can take over, one round of the loop settles on it and Schedules switches to it.
pub schedules_switches :
    (fuel tics : ℕ) (s : Scheduler)
    → Preempts tics s
    → eligible s (pick_next_thread s s.current_thread) ≡ true
    → pick_next_thread s s.current_thread ≢ s.current_thread
    → (s' : Scheduler) × (schedules (suc fuel) tics s ≡ ok s')
      × Switched tics (pick_next_thread s s.current_thread) s s'
unfolding schedules
schedules_switches fuel tics s p fit ne = (
  after_switch tics (pick_next_thread s s.current_thread) s,
  ground (arith, p.several, find_thread_next fuel s p.current p.successor fit),
  after_switch-Switched tics (pick_next_thread s s.current_thread) s ne,
)

-- A thread that waits is not left waiting by the switch: it comes out runnable again.
pub schedules_wakes_waiting :
    (fuel tics : ℕ) (s : Scheduler)
    → Preempts tics s
    → eligible s (pick_next_thread s s.current_thread) ≡ true
    → pick_next_thread s s.current_thread ≢ s.current_thread
    → (s.threads s.current_thread).state ≡ waiting
    → (s' : Scheduler) × (schedules (suc fuel) tics s ≡ ok s')
      × (runnable (s'.threads s.current_thread).state ≡ true)
schedules_wakes_waiting fuel tics s p fit ne w =
    let (s', e, done) = schedules_switches fuel tics s p fit ne in (s', e, rw done.stopped refl)

higher-is_found :
    (s : Scheduler) (thread : ℕ) (ts : List ℕ)
    → HasThreads s ts
    → thread ≢ null
    → has_higher_thread_priority s thread ≡ is_found (find_first (outranks s.threads thread) ts)
unfolding has_higher_thread_priority
higher-is_found s thread ts h real =
    rw (← h.held)
      (ground (arith, enumerate-find_first (outranks s.threads thread) s.threads_list h.filled))

is_found_iff : (o : Option ℕ) → (is_found o ≡ true) ↔ ((p : ℕ) × (o ≡ some p))
is_found_iff none = (λ e. cc, λ (p, e). cc)
is_found_iff (some p) = (λ e. (p, refl), λ h. refl)

-- HasHigherThreadPriority says whether the list has a thread that outranks the given one and can
-- run.
pub has_higher_thread_priority-find_first :
    (s : Scheduler) (thread : ℕ) (ts : List ℕ)
    → HasThreads s ts
    → thread ≢ null
    → (has_higher_thread_priority s thread ≡ true)
      ↔ ((p : ℕ) × (find_first (outranks s.threads thread) ts ≡ some p))
has_higher_thread_priority-find_first s thread ts h real =
    rw (higher-is_found s thread ts h real)
      (is_found_iff (find_first (outranks s.threads thread) ts))

-- A thread keeps the processor while it can run, its time is not over, and no thread outranks it.
pub schedules_keeps :
    (fuel tics : ℕ) (s : Scheduler) (ts : List ℕ)
    → HasThreads s ts
    → s.current_thread ≢ null
    → (s.threads s.current_thread).tics_on_resume ≤ tics
    → tics - (s.threads s.current_thread).tics_on_resume ≤ 100
    → tics < u32_mod
    → runnable (s.threads s.current_thread).state ≡ true
    → find_first (outranks s.threads s.current_thread) ts ≡ none
    → schedules fuel tics s ≡ ok s
unfolding schedules must_reschedule
schedules_keeps fuel tics s ts h real before short word can top =
    ground (arith, higher-is_found s s.current_thread ts h real)

-- ===== src/Process/Creation.antt =====
-- Create and CreateDefaultHeapAndStack of kernel/arch/x86/Process.cpp: a new address space.
use lt_micros.Base.{
  ℕ, ◌+◌, ◌<◌, ◌≡◌, ◌≢◌, refl, List, [], ◌∷◌, ◌++◌, Bool, true, false, arith, some, length,
  get_elem?, ◌&&◌, ◌⊎◌, inl, inr, Bool-cases,
}
use lt_micros.Base.Words.{page_size, null}
use lt_micros.Base.Status.{KeStatus, alloc_failed, failure, ok, err}
use lt_micros.Mapper.{Mapper}
use lt_micros.Vad.{Vad, create}
use lt_micros.Vad.Operations.{Outcome, allocate}
use lt_micros.Vad.Allocate.{allocated_part}
use lt_micros.Vad.Bump.{IsBump, allocate-IsBump}
use lt_micros.Process.{
  Process, NewProcess, create_process, create_default_heap_and_stack, create_default_stack,
  allocate_memory, at_place, heap_at, default_heap_size, v_process_base_addr, v_process_limit_addr,
}

-- The only descriptor of a new process.
abbrev pub whole_space : Vad
whole_space = record {
  base_address = v_process_base_addr;
  limit_address = v_process_limit_addr;
  size = 0xbfff_ffff;
  free = true;
}

-- A process that Create has made: its number is the counter's, no thread is in it, and its chain is
-- one free descriptor for all of user space, from which Allocate can take.
pub record IsNew (directory pid : ℕ) (p : Process) : Type 0 where
  pub numbered : p.pid ≡ pid
  pub own_directory : p.page_directory ≡ directory
  pub no_thread : p.main_thread ≡ null
  pub chain : p.vads ≡ whole_space ∷ []
  pub bump : IsBump v_process_base_addr v_process_limit_addr [] whole_space

-- Create with memory for its three allocations answers such a process and counts one more; without,
-- it answers an error and the next process gets the same number.
pub create_process-IsNew :
    (new : NewProcess) (directory next_pid : ℕ)
    → ((new.for_process && new.for_list && new.for_vad ≡ true)
        × ((p : Process) × (create_process new directory next_pid ≡ (ok p, next_pid + 1))
            × IsNew directory next_pid p))
      ⊎ ((new.for_process && new.for_list && new.for_vad ≡ false)
          × ((e : KeStatus) × (create_process new directory next_pid ≡ (err e, next_pid))))
unfolding create_process create
create_process-IsNew new directory next_pid = elim (Bool-cases new.for_process) [
  | inl a ↦ elim (Bool-cases new.for_list) [
    | inl b ↦ elim (Bool-cases new.for_vad) [
      | inl c ↦ inl (
        ground arith,
        (
          record new.memory {
            page_directory = directory;
            pid = next_pid;
            main_thread = null;
            vads = whole_space ∷ [];
          },
          ground arith,
          record {
            numbered = refl;
            own_directory = refl;
            no_thread = refl;
            chain = refl;
            bump = record {
              tiles = omega arith;
              in_use = tt;
              free = refl;
              aligned = refl;
              based = omega arith;
              low = omega arith;
            };
          },
        ),
      )
      | inr c ↦ inr (ground arith, (alloc_failed, ground arith))
    ]
    | inr b ↦ inr (ground arith, (failure, ground arith))
  ]
  | inr a ↦ inr (ground arith, (alloc_failed, ground arith))
]

last_front :
    (used : List Vad) (w v : Vad) → get_elem? ((used ++ w ∷ []) ++ v ∷ []) (length used) ≡ some w
last_front [] w v = refl
last_front (u ∷ us) w v = last_front us w v

module _ (env : Mapper) where
  at_place-heap :
      (p : Process) (o : Outcome env.Machine) → (at_place env p o).1.default_heap ≡ p.default_heap
  unfolding at_place
  at_place-heap p o = ground arith

  -- CreateDefaultStack leaves the heap alone.
  create_default_stack-heap :
      (fuel : ℕ) (split : Bool) (p : Process) (m : env.Machine)
      → (create_default_stack env fuel split p m).1.default_heap ≡ p.default_heap
  unfolding create_default_stack allocate_memory
  create_default_stack-heap fuel split p m =
      at_place-heap p (allocate env fuel split page_size p.page_directory true p.vads m)

  -- CreateDefaultHeapAndStack, once Allocate has answered the descriptor `w`.
  heap_placed :
      (fuel i : ℕ) (heap_split stack_split : Bool) (p : Process) (m : env.Machine) (w : Vad)
      → let o = allocate env fuel heap_split default_heap_size p.page_directory false p.vads m in
        o.result ≡ ok i
        → get_elem? o.chain i ≡ some w
        → let r = create_default_heap_and_stack env fuel heap_split stack_split p m in
          (r.0 ≡ ok tt)
          × (r.2.default_heap
              ≡ record { base_address = w.base_address; limit_address = w.base_address; vad = i })
  unfolding create_default_heap_and_stack heap_at
  heap_placed fuel i heap_split stack_split p m w found there =
      let o = allocate env fuel heap_split default_heap_size p.page_directory false p.vads m in
      ground (
        arith,
        found,
        there,
        create_default_stack-heap fuel stack_split
            (heap_at env i w.base_address (record p { vads = o.chain })) o.machine,
      )

module _ (env : Mapper) (fuel b e : ℕ) (m : env.Machine) (stack_split : Bool) (p : Process)
    (used : List Vad) (v : Vad) (chain : p.vads ≡ used ++ v ∷ []) (bump : IsBump b e used v)
    (real : p.page_directory ≢ null) (room : default_heap_size + page_size < v.size)
    (enough : 5 < fuel) where
  -- CreateDefaultHeapAndStack on a chain that Allocate has built, with room for the heap: it succeeds,
  -- whatever becomes of the stack, and the heap begins empty at the free descriptor, which is now in
  -- use.
  pub create_default_heap_and_stack-heap :
      let r = create_default_heap_and_stack env fuel true stack_split p m in
      (r.0 ≡ ok tt)
      × (r.2.default_heap ≡ record {
        base_address = v.base_address;
        limit_address = v.base_address;
        vad = length used;
      })
  create_default_heap_and_stack-heap =
      let (found, after, bumped, large) =
        allocate-IsBump env fuel p.page_directory b e default_heap_size m used v bump (omega arith)
          real room (omega arith) in
      heap_placed env fuel (length used) true stack_split p m (allocated_part v default_heap_size)
        (rw chain found) (rw chain (rw after (last_front used _ _)))

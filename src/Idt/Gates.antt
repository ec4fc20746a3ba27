-- ===== src/Idt/Gates.antt =====
-- kernel/arch/x86/Idt.cpp: where each interrupt goes once the table is set up.
use lt_micros.Base.Bits.{same, same_sound, holds_below, holds_below-at}
use lt_micros.Base.{
  not, ◌&&◌, leb, ℕ, zero, suc, ◌^◌, ◌<◌, ◌≡◌, refl, ap, sym, ◌∙◌, inl, inr, Bool-cases, ==_iff,
  List, [], ◌∷◌, Bool, true, false, ◌||◌, if◌then◌else◌, ◌==◌, arith,
}
use lt_micros.Idt.{
  Idt, IdtDescriptor, idt_size, kernel_code_selector, cpu_gate, debug_gate, syscall_gate,
  make_descriptor, init_descriptor, init_default, init_gates, init, exceptions, is_exception,
  target, privilege, clock_init, scheduler_init, syscalls_init, debugger_init,
}

init_default_lem :
    (count d : ℕ) (idt : Idt) (i : ℕ)
    → i < count
    → init_default count d idt i ≡ make_descriptor d kernel_code_selector cpu_gate
unfolding init_default
init_default_lem zero d idt i h = absurd (omega arith)
init_default_lem (suc count) d idt i h = ground (arith, init_default_lem count d idt i)

gate_choice :
    (isr : ℕ → ℕ) (x i : ℕ) (others : Bool) (idt : Idt)
    → (if others
        then make_descriptor (isr i) kernel_code_selector cpu_gate
        else init_descriptor (isr x) cpu_gate x idt i)
      ≡ (if if i == x then true else others
          then make_descriptor (isr i) kernel_code_selector cpu_gate
          else idt i)
unfolding init_descriptor
gate_choice isr x i true idt = ground arith
gate_choice isr x i false idt = elim (Bool-cases (i == x)) [
  | inl e ↦
      rw e
        (ap (λ k. make_descriptor (isr k) kernel_code_selector cpu_gate) (sym ((==_iff i x).0 e)))
  | inr n ↦ rw n refl
]

init_gates_lem :
    (isr : ℕ → ℕ) (xs : List ℕ) (idt : Idt) (i : ℕ)
    → init_gates isr xs idt i
      ≡ (if is_exception i xs then make_descriptor (isr i) kernel_code_selector cpu_gate else idt i)
unfolding init_gates is_exception
init_gates_lem isr [] idt i = refl
init_gates_lem isr (x ∷ xs) idt i =
    init_gates_lem isr xs (init_descriptor (isr x) cpu_gate x idt) i
    ∙ gate_choice isr x i (is_exception i xs) idt

either :
    (own : Bool) (a d : ℕ)
    → (if own
        then make_descriptor a kernel_code_selector cpu_gate
        else make_descriptor d kernel_code_selector cpu_gate)
      ≡ make_descriptor (if own then a else d) kernel_code_selector cpu_gate
either true a d = refl
either false a d = refl

-- The interrupts that have a routine of their own: the exceptions of the processor but 1, 3, 9, 15 and
-- those from 21 on, and 30 and 33.
abbrev pub has_own_routine : ℕ → Bool
has_own_routine i = (leb i 20 && not (i == 1 || i == 3 || i == 9 || i == 15)) || i == 30 || i == 33

own_table : holds_below 255 (λ i. same (is_exception i exceptions) (has_own_routine i)) ≡ true
unfolding holds_below is_exception same
own_table = refl

own_routine : (i : ℕ) → i < 255 → is_exception i exceptions ≡ has_own_routine i
own_routine i h =
    same_sound (is_exception i exceptions) (has_own_routine i)
      (holds_below-at i 255 (λ j. same (is_exception j exceptions) (has_own_routine j)) h own_table)

init_lem :
    (d : ℕ) (isr : ℕ → ℕ) (idt : Idt) (i : ℕ)
    → i < idt_size
    → init d isr idt i
      ≡ make_descriptor (if has_own_routine i then isr i else d) kernel_code_selector cpu_gate
unfolding init
init_lem d isr idt i h =
    init_gates_lem isr exceptions (init_default idt_size d idt) i
    ∙ ap
        (λ e.
          if is_exception i exceptions
          then make_descriptor (isr i) kernel_code_selector cpu_gate
          else e)
        (init_default_lem idt_size d idt i h)
    ∙ either (is_exception i exceptions) (isr i) d
    ∙ ap (λ own. make_descriptor (if own then isr i else d) kernel_code_selector cpu_gate)
        (own_routine i h)

-- The routine of each interrupt, once the kernel has started with a debugger.
abbrev pub routine :
    (default_isr clock switch syscall debug breakpoint : ℕ) (isr : ℕ → ℕ) (i : ℕ) → ℕ
routine default_isr clock switch syscall debug breakpoint isr i =
    if i == 48
    then syscall
    else if i == 49
    then switch
    else if i == 32
    then clock
    else if i == 3
    then breakpoint
    else if i == 1
    then debug
    else if has_own_routine i
    then isr i
    else default_isr

abbrev pub is_for_users : ℕ → Bool
is_for_users i = i == 48 || i == 3 || i == 1

abbrev chosen_gate : ℕ → ℕ
chosen_gate i =
    if i == 48
    then syscall_gate
    else if i == 49
    then cpu_gate
    else if i == 32
    then cpu_gate
    else if i == 3
    then debug_gate
    else if i == 1
    then debug_gate
    else cpu_gate

ladder :
    (a e b c d : Bool) (clock switch syscall debug breakpoint : ℕ) (old : IdtDescriptor) (r : ℕ)
    → old ≡ make_descriptor r kernel_code_selector cpu_gate
    → (if a
        then make_descriptor syscall kernel_code_selector syscall_gate
        else if e
        then make_descriptor switch kernel_code_selector cpu_gate
        else if b
        then make_descriptor clock kernel_code_selector cpu_gate
        else if c
        then make_descriptor breakpoint kernel_code_selector debug_gate
        else if d
        then make_descriptor debug kernel_code_selector debug_gate
        else old)
      ≡ make_descriptor
          (if a
            then syscall
            else if e
            then switch
            else if b
            then clock
            else if c
            then breakpoint
            else if d
            then debug
            else r)
          kernel_code_selector
          (if a
            then syscall_gate
            else if e
            then cpu_gate
            else if b
            then cpu_gate
            else if c
            then debug_gate
            else if d
            then debug_gate
            else cpu_gate)
ladder true e b c d clock switch syscall debug breakpoint old r made = refl
ladder false true b c d clock switch syscall debug breakpoint old r made = refl
ladder false false true c d clock switch syscall debug breakpoint old r made = refl
ladder false false false true d clock switch syscall debug breakpoint old r made = refl
ladder false false false false true clock switch syscall debug breakpoint old r made = refl
ladder false false false false false clock switch syscall debug breakpoint old r made = made

made_target : (r gate : ℕ) → r < 2 ^ 32 → target (make_descriptor r kernel_code_selector gate) ≡ r
unfolding make_descriptor
made_target r gate h = omega arith

made_selector :
    (r gate : ℕ) → (make_descriptor r kernel_code_selector gate).selector ≡ kernel_code_selector
unfolding make_descriptor
made_selector r gate = refl

made_privilege :
    (r i : ℕ)
    → privilege (make_descriptor r kernel_code_selector (chosen_gate i))
      ≡ (if is_for_users i then 3 else 0)
unfolding make_descriptor
made_privilege r i = ground arith

module _ (default_isr clock switch syscall debug breakpoint : ℕ) (isr : ℕ → ℕ) (idt : Idt) where
  -- The table once the kernel has started with a debugger.
  abbrev pub started : Idt
  started = syscalls_init syscall (
      scheduler_init switch
        (clock_init clock (debugger_init debug breakpoint (init default_isr isr idt))))

  started_lem :
      (i : ℕ)
      → i < 255
      → started i
        ≡ make_descriptor
            (routine default_isr clock switch syscall debug breakpoint isr i)
            kernel_code_selector
            (chosen_gate i)
  unfolding init_descriptor
  started_lem i h =
      ladder (i == 48) (i == 49) (i == 32) (i == 3) (i == 1) clock switch syscall debug breakpoint
        (init default_isr isr idt i) _ (init_lem default_isr isr idt i h)

  -- Once the kernel has started with a debugger, each of the first 255 interrupts goes to its routine,
  -- through the kernel's code segment: 0, 2, 4 to 8, 10 to 14, 16 to 20, 30 and 33 each to one of its
  -- own, 1 and 3 to the debugger, 32, 48 and 49 to the clock, the system calls and the switch of tasks,
  -- and all others to the default. Software of user privilege can raise 1, 3 and 48, and no other.
  pub started-routine :
      (i : ℕ)
      → i < 255
      → routine default_isr clock switch syscall debug breakpoint isr i < 2 ^ 32
      → (target (started i) ≡ routine default_isr clock switch syscall debug breakpoint isr i)
        × ((started i).selector ≡ 0x08)
        × (privilege (started i) ≡ (if is_for_users i then 3 else 0))
  started-routine i h fits =
      let made = started_lem i h in
      let gate = chosen_gate i in
      (
        ap target made
            ∙ made_target (routine default_isr clock switch syscall debug breakpoint isr i) gate
                fits,
        ap (λ d. d.selector) made ∙ made_selector _ gate,
        ap privilege made ∙ made_privilege _ i,
      )

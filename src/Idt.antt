-- ===== src/Idt.antt =====
-- kernel/arch/x86/Idt.cpp and Idt.hpp: the table of interrupt descriptors, with the descriptors that
-- other parts add: Clock.cpp, Scheduler.cpp, Syscalls.cpp and LtDbg.cpp. A service routine is its address.
pub mod Gates
use lt_micros.Base.{
  ℕ, zero, suc, ◌+◌, ◌-◌, ◌*◌, ◌/◌, ◌%◌, ◌^◌, ◌≤◌, ◌<◌, ◌≡◌, ◌≢◌, refl, ap, sym, ◌∙◌, inl, inr,
  Bool-cases, ==_iff, List, [], ◌∷◌, Bool, true, false, ◌||◌, if◌then◌else◌, ◌==◌, arith,
}

pub record IdtDescriptor : Type 0 where
  pub offset0_15 : ℕ
  pub selector : ℕ
  pub type : ℕ
  pub offset16_31 : ℕ

-- IDT_SIZE and sizeof(IdtDescriptor)
abbrev pub idt_size : ℕ
idt_size = 255

abbrev pub kernel_code_selector : ℕ
kernel_code_selector = 0x08

-- INT_GATE or TRAP_GATE with PRESENT and a DPL
abbrev pub cpu_gate : ℕ
cpu_gate = 0x8e

abbrev pub debug_gate : ℕ
debug_gate = 0xee

abbrev pub syscall_gate : ℕ
syscall_gate = 0xef

abbrev pub Idt : Type 0
Idt = ℕ → IdtDescriptor

-- Idt::_InitDescriptor
unfoldable pub make_descriptor : (isr_addr selector gate : ℕ) → IdtDescriptor
make_descriptor isr_addr selector gate = record {
  offset0_15 = isr_addr % 65536;
  selector = selector;
  type = gate * 256 % 65536;
  offset16_31 = isr_addr / 65536 % 65536;
}

-- Idt::InitDescriptor
unfoldable pub init_descriptor : (isr_addr gate index : ℕ) → Idt → Idt
unfolding make_descriptor
init_descriptor isr_addr gate index idt i =
    if i == index then make_descriptor isr_addr kernel_code_selector gate else idt i

-- The loop of Idt::Init
unfoldable pub init_default : (count default_isr : ℕ) → Idt → Idt
unfolding init_descriptor
init_default zero default_isr idt = idt
init_default (suc count) default_isr idt =
    init_descriptor default_isr cpu_gate count (init_default count default_isr idt)

-- The numbers of the exceptions that have a routine of their own, in the order in which Init sets them,
-- and the keyboard.
abbrev pub exceptions : List ℕ
exceptions =
    0 ∷ 2 ∷ 4 ∷ 5 ∷ 6 ∷ 7 ∷ 8 ∷ 10 ∷ 11 ∷ 12 ∷ 13 ∷ 14 ∷ 16 ∷ 17 ∷ 18 ∷ 19 ∷ 20 ∷ 30 ∷ 33 ∷ []

unfoldable pub init_gates : (isr : ℕ → ℕ) → List ℕ → Idt → Idt
unfolding init_descriptor
init_gates isr [] idt = idt
init_gates isr (i ∷ is) idt = init_gates isr is (init_descriptor (isr i) cpu_gate i idt)

-- Idt::Init; `isr` has the routine for each of the numbers.
unfoldable pub init : (default_isr : ℕ) → (isr : ℕ → ℕ) → Idt → Idt
unfolding init_default init_gates
init default_isr isr idt = init_gates isr exceptions (init_default idt_size default_isr idt)

-- Where the processor goes for an interrupt, and from which privilege level software may raise it.
abbrev pub target : IdtDescriptor → ℕ
target d = d.offset16_31 * 65536 + d.offset0_15

abbrev pub privilege : IdtDescriptor → ℕ
privilege d = d.type / 8192 % 4

-- A number that Init sets apart.
unfoldable pub is_exception : ℕ → List ℕ → Bool
is_exception i [] = false
is_exception i (x ∷ xs) = if i == x then true else is_exception i xs

-- ClockDriver::Init, Scheduler::Init, SyscallsX86::Init and LtDbg::Init, as far as they set gates.
abbrev pub clock_init : (isr : ℕ) → Idt → Idt
clock_init isr = init_descriptor isr cpu_gate 32

abbrev pub scheduler_init : (isr : ℕ) → Idt → Idt
scheduler_init isr = init_descriptor isr cpu_gate 49

abbrev pub syscalls_init : (isr : ℕ) → Idt → Idt
syscalls_init isr = init_descriptor isr syscall_gate 48

abbrev pub debugger_init : (debug breakpoint : ℕ) → Idt → Idt
debugger_init debug breakpoint idt =
    init_descriptor breakpoint debug_gate 3 (init_descriptor debug debug_gate 1 idt)

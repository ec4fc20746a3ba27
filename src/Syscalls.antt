-- ===== src/Syscalls.antt =====
-- kernel/syscalls/SyscallsHandler.cpp with SyscallsList.hpp: the system calls, over the modelled parts
-- of the kernel. A call reads and writes registers of the interrupted task; what stands in its memory
-- at an address is a parameter, as is what the allocations of AddNewServer answer.
pub mod Servers
pub mod Sbrk
use lt_micros.Base.{
  ℕ, zero, suc, ◌+◌, Option, none, some, List, [], ◌∷◌, ◌++◌, Bool, true, false, if◌then◌else◌,
  ◌==◌, leb, length,
}
use lt_micros.Base.Text.{codes}
use lt_micros.Base.Words.{null}
use lt_micros.Base.Status.{
  KeStatus, success, failure, not_found, invalid_parameter, null_parameter, invalid_handle,
  alloc_failed, invalid_virtual_user_address, physical_memory_full, process_heap_limit_reached,
  id_string_already_used, server_not_found, access_denied, handle_already_exist,
  list_stop_iterating, unexpected, Run, ok, err, fault, running,
}
use lt_micros.StdIo.{number, string, kprint}
use lt_micros.Scheduler.{Thread, raise_priority_level, lower_priority_level}
use lt_micros.Process.{Process, increase_heap}
use lt_micros.Ipc.{IpcHandler, Memory, add_new_server, connect_to_server, acquire}
use lt_micros.Ipc

-- The value of a status.
unfoldable pub code_of : KeStatus → ℕ
code_of success = 0
code_of failure = 1
code_of not_found = 2
code_of invalid_parameter = 3
code_of null_parameter = 4
code_of invalid_handle = 5
code_of alloc_failed = 6
code_of invalid_virtual_user_address = 7
code_of physical_memory_full = 8
code_of process_heap_limit_reached = 9
code_of id_string_already_used = 10
code_of server_not_found = 11
code_of access_denied = 12
code_of handle_already_exist = 13
code_of list_stop_iterating = 14
code_of unexpected = 15

-- SyscallId
abbrev pub sys_print_char : ℕ
sys_print_char = 0

abbrev pub sys_print_str : ℕ
sys_print_str = 1

abbrev pub sys_sbrk : ℕ
sys_sbrk = 2

abbrev pub sys_ipc_server_create : ℕ
sys_ipc_server_create = 3

abbrev pub sys_ipc_server_connect : ℕ
sys_ipc_server_connect = 4

abbrev pub sys_ipc_send : ℕ
sys_ipc_send = 5

abbrev pub sys_ipc_recv : ℕ
sys_ipc_recv = 6

abbrev pub sys_enter_screen_critical_section : ℕ
sys_enter_screen_critical_section = 7

abbrev pub sys_leave_screen_critical_section : ℕ
sys_leave_screen_critical_section = 8

abbrev pub sys_raise_thread_priority : ℕ
sys_raise_thread_priority = 9

abbrev pub sys_lower_thread_priority : ℕ
sys_lower_thread_priority = 10

abbrev pub sys_invalid : ℕ
sys_invalid = 11

abbrev pub invalid_handle_value : ℕ
invalid_handle_value = 0

-- The registers of InterruptFromUserlandContext that the calls use.
pub record Registers : Type 0 where
  pub eax : ℕ
  pub ebx : ℕ
  pub ecx : ℕ
  pub edx : ℕ

-- SysIpcReceiveParameter; `read_bytes` is the address readBytesPtr.
pub record ReceiveParameter : Type 0 where
  pub ipc_handle : ℕ
  pub buffer : ℕ
  pub size : ℕ
  pub read_bytes : ℕ

-- The memory of the task: a string, a number of bytes and a SysIpcReceiveParameter at an address that
-- is not null.
pub record UserMemory : Type 0 where
  pub text : ℕ → List ℕ
  pub bytes : ℕ → ℕ → List ℕ
  pub receive : ℕ → ReceiveParameter

-- The current process with its address, the current thread, the servers, what was printed, and the
-- lock of the screen.
pub record Kernel : Type 0 where
  pub process : Option (ℕ × Process)
  pub thread : Option Thread
  pub ipc : IpcHandler
  pub printed : List ℕ
  pub screen_lock : ℕ

-- A call: the registers, if it returns, the bytes that it wrote for the task, and the kernel.
abbrev pub Called : Type 0
Called = Run (Registers × List ℕ) × Kernel

abbrev pub done : Registers → Kernel → Called
done r k = (ok (r, []), k)

abbrev pub with_status : KeStatus → Registers → Registers
with_status e r = record r { eax = code_of e }

-- The status and the handle in the registers.
abbrev pub with_handle : KeStatus → ℕ → Registers → Registers
with_handle e handle r = record r { eax = code_of e; ebx = handle }

abbrev pub text_at : UserMemory → ℕ → Option (List ℕ)
text_at u address = if address == null then none else some (u.text address)

print : Run (List ℕ) → Registers → Kernel → Called
print (ok chars) r k = done r (record k { printed = k.printed ++ chars })
print (err e) r k = (err e, k)
print fault r k = (fault, k)
print running r k = (running, k)

-- SysPrintChar and SysPrintStr; kprint follows a null string.
unfoldable pub print_char : Registers → Kernel → Called
unfolding print kprint
print_char r k = print (kprint (codes "%c") (number r.ebx ∷ [])) r k

unfoldable pub print_str : UserMemory → Registers → Kernel → Called
unfolding print kprint
print_str u r k = elim (text_at u r.ebx) [
  | none ↦ (fault, k)
  | some s ↦ print (kprint (codes "%s") (string s ∷ [])) r k
]

-- What a call leaves in eax and ebx, as its status and handle.
unfoldable pub answer_handle : Run ℕ → Registers → Kernel → Called
unfolding code_of
answer_handle (ok handle) r k = done (with_handle success handle r) k
answer_handle (err e) r k = done (with_handle e invalid_handle_value r) k
answer_handle fault r k = (fault, k)
answer_handle running r k = (running, k)

unfoldable pub answer_status : {A : Type 0} → (A → List ℕ) → Run A → Registers → Kernel → Called
unfolding code_of
answer_status written (ok a) r k = (ok (with_status success r, written a), k)
answer_status written (err e) r k = done (with_status e r) k
answer_status written fault r k = (fault, k)
answer_status written running r k = (running, k)

unfoldable pub answer_block : Run ℕ → Registers → Kernel → Called
answer_block (ok block) r k = done (record r { eax = block }) k
answer_block (err e) r k = done (record r { eax = 0 }) k
answer_block fault r k = (fault, k)
answer_block running r k = (running, k)

-- SysSbrk; the place for the result is a local variable.
unfoldable pub sbrk : Registers → Kernel → Called
unfolding answer_block
sbrk r k = elim k.process [
  | none ↦ done (record r { eax = 0 }) k
  | some (address, p) ↦
      let grown = increase_heap r.ebx 1 p in
      answer_block grown.0 r (record k { process = some (address, grown.1) })
]

-- SysIpcServerCreate
unfoldable pub ipc_server_create : Memory → UserMemory → Registers → Kernel → Called
unfolding answer_handle
ipc_server_create memory u r k = elim k.process [
  | none ↦ done (with_handle failure invalid_handle_value r) k
  | some (address, p) ↦
      let added = add_new_server k.ipc memory (text_at u r.ebx) address 1 in
      answer_handle added.0 r (record k { ipc = added.1 })
]

-- SysIpcServerConnect
unfoldable pub ipc_server_connect : UserMemory → Registers → Kernel → Called
unfolding answer_handle
ipc_server_connect u r k = elim k.process [
  | none ↦ done (with_handle failure invalid_handle_value r) k
  | some (address, p) ↦ answer_handle (connect_to_server k.ipc (text_at u r.ebx) address 1) r k
]

-- SysIpcSend
unfoldable pub ipc_send : UserMemory → Registers → Kernel → Called
unfolding answer_status
ipc_send u r k = elim k.process [
  | none ↦ done (with_status failure r) k
  | some (address, p) ↦
      let message = if r.ecx == null then none else some (u.bytes r.ecx r.edx) in
      let sent = Ipc.send k.ipc r.ebx address message in
      answer_status (λ _. []) sent.0 r (record k { ipc = sent.1 })
]

-- SysIpcReceive with parameters whose two pointers are not null; the parameters themselves are read
-- through the pointer that the task gives.
unfoldable pub ipc_receive : UserMemory → Registers → Kernel → Called
unfolding answer_status
ipc_receive u r k = elim k.process [
  | none ↦ done (with_status failure r) k
  | some (address, p) ↦
      let parameters = u.receive r.ebx in
      let got = Ipc.receive k.ipc parameters.ipc_handle address parameters.size in
      if r.ebx == null
      then (fault, k)
      else answer_status (λ bytes. bytes) got.0 r (record k { ipc = got.1 })
]

-- SysEnterScreenCriticalSection and SysLeaveScreenCriticalSection
unfoldable pub enter_screen_critical_section : Registers → Kernel → Called
unfolding acquire
enter_screen_critical_section r k = elim (acquire k.screen_lock) [
  | ok word ↦ done r (record k { screen_lock = word })
  | err e ↦ (err e, k)
  | fault ↦ (fault, k)
  | running ↦ (running, k)
]

unfoldable pub leave_screen_critical_section : Registers → Kernel → Called
leave_screen_critical_section r k = done r (record k { screen_lock = 0 })

-- SysRaiseThreadPriority and SysLowerThreadPriority
change_thread : (Thread → Thread) → Registers → Kernel → Called
change_thread f r k = elim k.thread [
  | none ↦ done r k
  | some t ↦ done r (record k { thread = some (f t) })
]

unfoldable pub raise_thread_priority : Registers → Kernel → Called
unfolding change_thread raise_priority_level
raise_thread_priority r k = change_thread raise_priority_level r k

unfoldable pub lower_thread_priority : Registers → Kernel → Called
unfolding change_thread lower_priority_level
lower_thread_priority r k = change_thread lower_priority_level r k

-- syscall_isr and ExecuteSyscall with a context: the call is chosen by eax. An unknown number, and
-- SysInvalid, only log.
unfoldable pub execute_syscall : Memory → UserMemory → Registers → Kernel → Called
unfolding print_char print_str sbrk ipc_server_create ipc_server_connect ipc_send ipc_receive
    enter_screen_critical_section leave_screen_critical_section raise_thread_priority
    lower_thread_priority
execute_syscall memory u r k =
    if leb sys_invalid r.eax
    then done r k
    else if r.eax == sys_print_char
    then print_char r k
    else if r.eax == sys_print_str
    then print_str u r k
    else if r.eax == sys_sbrk
    then sbrk r k
    else if r.eax == sys_ipc_server_create
    then ipc_server_create memory u r k
    else if r.eax == sys_ipc_server_connect
    then ipc_server_connect u r k
    else if r.eax == sys_ipc_send
    then ipc_send u r k
    else if r.eax == sys_ipc_recv
    then ipc_receive u r k
    else if r.eax == sys_enter_screen_critical_section
    then enter_screen_critical_section r k
    else if r.eax == sys_leave_screen_critical_section
    then leave_screen_critical_section r k
    else if r.eax == sys_raise_thread_priority
    then raise_thread_priority r k
    else lower_thread_priority r k

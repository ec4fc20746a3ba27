-- ===== src/Syscalls/Servers.antt =====
-- The system calls of servers: what one process registers, the others find.
use lt_micros.Base.{ℕ, ◌≡◌, ◌≢◌, refl, ap, ◌∙◌, some, [], false, ◌==◌, arith}
use lt_micros.Base.Words.{null}
use lt_micros.Base.Status.{id_string_already_used, Run, ok, err}
use lt_micros.Process.{Process}
use lt_micros.Ipc.{IpcHandler, Memory, add_new_server, connect_to_server}
use lt_micros.Syscalls.{
  Registers, UserMemory, Kernel, text_at, code_of, invalid_handle_value, answer_handle,
  execute_syscall, sys_ipc_server_create, sys_ipc_server_connect,
}

abbrev pub regs : (eax ebx ecx edx : ℕ) → Registers
regs eax ebx ecx edx = record { eax = eax; ebx = ebx; ecx = ecx; edx = edx }

-- The kernel while a process runs.
abbrev pub running_as : ℕ → Process → Kernel → Kernel
running_as address p k = record k { process = some (address, p) }

text_there :
    (u : UserMemory) (address : ℕ) → address ≢ null → text_at u address ≡ some (u.text address)
text_there u address real = let held : (address == null) ≡ false = ground arith in rw held refl

module _ (memory : Memory) (u : UserMemory) (address : ℕ) (p : Process) (k : Kernel) where
  pub create_ok :
      (name ecx edx handle : ℕ) (m' : IpcHandler)
      → name ≢ null
      → add_new_server k.ipc memory (some (u.text name)) address 1 ≡ (ok handle, m')
      → execute_syscall memory u (regs sys_ipc_server_create name ecx edx) (running_as address p k)
        ≡ (ok (regs 0 handle ecx edx, []), running_as address p (record k { ipc = m' }))
  unfolding execute_syscall answer_handle code_of
  create_ok name ecx edx handle m' real e =
      ap
        (λ (x : Run ℕ × IpcHandler).
          answer_handle x.0 (regs sys_ipc_server_create name ecx edx)
            (running_as address p (record k { ipc = x.1 })))
        (ap (λ n. add_new_server k.ipc memory n address 1) (text_there u name real) ∙ e)

  pub create_err :
      (name ecx edx : ℕ) (m' : IpcHandler)
      → name ≢ null
      → add_new_server k.ipc memory (some (u.text name)) address 1
        ≡ (err id_string_already_used, m')
      → execute_syscall memory u (regs sys_ipc_server_create name ecx edx) (running_as address p k)
        ≡ (
          ok (regs 10 invalid_handle_value ecx edx, []),
          running_as address p (record k { ipc = m' }),
        )
  unfolding execute_syscall answer_handle code_of
  create_err name ecx edx m' real e =
      ap
        (λ (x : Run ℕ × IpcHandler).
          answer_handle x.0 (regs sys_ipc_server_create name ecx edx)
            (running_as address p (record k { ipc = x.1 })))
        (ap (λ n. add_new_server k.ipc memory n address 1) (text_there u name real) ∙ e)

  pub connect_ok :
      (name ecx edx handle : ℕ)
      → name ≢ null
      → connect_to_server k.ipc (some (u.text name)) address 1 ≡ ok handle
      → execute_syscall memory u (regs sys_ipc_server_connect name ecx edx) (running_as address p k)
        ≡ (ok (regs 0 handle ecx edx, []), running_as address p k)
  unfolding execute_syscall answer_handle code_of
  connect_ok name ecx edx handle real e =
      ap (λ x. answer_handle x (regs sys_ipc_server_connect name ecx edx) (running_as address p k))
        (ap (λ n. connect_to_server k.ipc n address 1) (text_there u name real) ∙ e)

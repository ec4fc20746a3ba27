-- ===== src/UserLib/Ipc.antt =====
-- userland/StdLib/src/Ipc.cpp: servers and clients as programs use them, over the system calls. The
-- wrappers of syscalls.asm put the number of the call and the arguments into registers; a null pointer
-- is the address 0. What these functions print is left out.
use lt_micros.Base.{
  ℕ, ◌≡◌, ◌≢◌, ap, ◌∙◌, Option, none, some, List, [], true, false, if◌then◌else◌, if_not, ◌==◌,
  arith, AllBytes,
}
use lt_micros.Base.Words.{null, add32}
use lt_micros.Base.Status.{Run, ok, err, fault, running}
use lt_micros.Process.{Process}
use lt_micros.Ipc.{IpcHandler, Memory, is_id_used}
use lt_micros.Ipc
use lt_micros.Ipc.Servers.{add_new_server-connect}
use lt_micros.Syscalls.{
  Registers, UserMemory, Kernel, Called, invalid_handle_value, execute_syscall,
  sys_ipc_server_create, sys_ipc_server_connect, sys_ipc_send, sys_ipc_recv,
}
use lt_micros.Syscalls.Servers.{regs, running_as, create_ok, create_err, connect_ok}

-- STATUS_NULL_PARAMETER and STATUS_INVALID_PARAMETER of userland/StdLib/src/status.h, which numbers the
-- statuses otherwise than the kernel does. What a system call leaves in eax is taken for one of these.
abbrev pub status_null_parameter : ℕ
status_null_parameter = 2

abbrev pub status_invalid_parameter : ℕ
status_invalid_parameter = 3

-- What a function of the library does: its status with what it leaves for its caller, and the kernel.
abbrev pub Outcome : Type 0 → Type 0
Outcome A = Run (ℕ × A) × Kernel

abbrev pub finish : {A : Type 0} → (Registers → List ℕ → A) → Called → Outcome A
finish f (ok (r, bytes), k) = (ok (r.eax, f r bytes), k)
finish f (err e, k) = (err e, k)
finish f (fault, k) = (fault, k)
finish f (running, k) = (running, k)

-- IpcServer::Create with a server: `_serverHandle` afterwards, of which only a success is stored.
keep_handle : (old : ℕ) → Outcome ℕ → Outcome ℕ
keep_handle old (ok (status, handle), k) = (ok (status, if status == 0 then handle else old), k)
keep_handle old (err e, k) = (err e, k)
keep_handle old (fault, k) = (fault, k)
keep_handle old (running, k) = (running, k)

module _ (memory : Memory) (u : UserMemory) where
  unfoldable pub create_server : (name server_handle : ℕ) → Kernel → Outcome ℕ
  unfolding keep_handle execute_syscall
  create_server name server_handle k =
      if name == null
      then (ok (status_null_parameter, server_handle), k)
      else keep_handle server_handle
          (finish (λ r _. r.ebx) (execute_syscall memory u (regs sys_ipc_server_create name 0 0) k))

  -- IpcClient::ConnectToServer with a place for the handle; the wrapper stores it in any case.
  unfoldable pub connect_to_server : (name : ℕ) → Kernel → Outcome (Option ℕ)
  unfolding execute_syscall
  connect_to_server name k =
      if name == null
      then (ok (status_null_parameter, none), k)
      else finish (λ r _. some r.ebx)
          (execute_syscall memory u (regs sys_ipc_server_connect name 0 0) k)

  -- IpcClient::Send
  unfoldable pub send : (handle message size : ℕ) → Kernel → Outcome (Unit {0})
  unfolding execute_syscall
  send handle message size k =
      if handle == invalid_handle_value
      then (ok (status_invalid_parameter, tt), k)
      else if message == null
      then (ok (status_null_parameter, tt), k)
      else if size == 0
      then (ok (status_invalid_parameter, tt), k)
      else finish (λ r _. tt) (execute_syscall memory u (regs sys_ipc_send handle message size) k)

  -- IpcServer::Receive: the bytes received. `parameters` is the address of its local variable, where
  -- the task's memory then holds the four arguments.
  unfoldable pub receive :
      (parameters server_handle buffer size read_bytes : ℕ) → Kernel → Outcome (List ℕ)
  unfolding execute_syscall
  receive parameters server_handle buffer size read_bytes k =
      let u' = record u {
        receive = λ _. record {
          ipc_handle = server_handle;
          buffer = buffer;
          size = size;
          read_bytes = read_bytes;
        };
      } in
      if buffer == null
      then (ok (status_null_parameter, []), k)
      else if size == 0
      then (ok (status_invalid_parameter, []), k)
      else if read_bytes == null
      then (ok (status_null_parameter, []), k)
      else finish (λ _ bytes. bytes)
          (execute_syscall memory u' (regs sys_ipc_recv parameters 0 0) k)

module _ (memory : Memory) (u : UserMemory) (address : ℕ) (p : Process) (k : Kernel) where
  created :
      (name old handle : ℕ) {m' : IpcHandler}
      → name ≢ null
      → execute_syscall memory u (regs sys_ipc_server_create name 0 0) (running_as address p k)
        ≡ (ok (regs 0 handle 0 0, []), running_as address p (record k { ipc = m' }))
      → create_server memory u name old (running_as address p k)
        ≡ (ok (0, handle), running_as address p (record k { ipc = m' }))
  unfolding create_server
  created name old handle real e =
      let held : (name == null) ≡ false = ground arith in
      if_not (name == null) _ _ held ∙ ap (λ c. keep_handle old (finish (λ r _. r.ebx) c)) e

  refused :
      (name old : ℕ) {m' : IpcHandler}
      → name ≢ null
      → execute_syscall memory u (regs sys_ipc_server_create name 0 0) (running_as address p k)
        ≡ (ok (regs 10 invalid_handle_value 0 0, []), running_as address p (record k { ipc = m' }))
      → create_server memory u name old (running_as address p k)
        ≡ (ok (10, old), running_as address p (record k { ipc = m' }))
  unfolding create_server
  refused name old real e =
      let held : (name == null) ≡ false = ground arith in
      if_not (name == null) _ _ held ∙ ap (λ c. keep_handle old (finish (λ r _. r.ebx) c)) e

  connected :
      (name handle : ℕ)
      → name ≢ null
      → execute_syscall memory u (regs sys_ipc_server_connect name 0 0) (running_as address p k)
        ≡ (ok (regs 0 handle 0 0, []), running_as address p k)
      → connect_to_server memory u name (running_as address p k)
        ≡ (ok (0, some handle), running_as address p k)
  unfolding connect_to_server
  connected name handle real e =
      let held : (name == null) ≡ false = ground arith in
      if_not (name == null) _ _ held ∙ ap (finish (λ r _. some r.ebx)) e

-- Through the library, the system calls and the kernel: given memory in the kernel, and a name that no
-- server uses, IpcServer::Create by a process answers STATUS_SUCCESS and stores the next handle of the
-- kernel. In the kernel as it is then IpcClient::ConnectToServer under the same name by any process
-- answers STATUS_SUCCESS and that handle, and IpcServer::Create under it stores nothing and answers 10,
-- the kernel's IPC_STATUS_ID_STRING_ALREADY_USED, which the library numbers as STATUS_ACCESS_DENIED;
-- neither changes the kernel.
pub create_server-connect_to_server :
    (memory : Memory) (u : UserMemory) (address name old : ℕ) (p : Process) (k : Kernel)
    → AllBytes (u.text name)
    → memory.for_object ≡ true
    → memory.for_id ≡ true
    → memory.for_cell ≡ true
    → is_id_used k.ipc (u.text name) ≡ false
    → address ≢ null
    → name ≢ null
    → let handle = add32 k.ipc.handle_count 1 in
      (k' : Kernel) × (create_server memory u name old (running_as address p k)
        ≡ (ok (0, handle), running_as address p k'))
      × ((u2 : UserMemory) (address2 name2 old2 : ℕ) (p2 : Process)
          → u2.text name2 ≡ u.text name
          → address2 ≢ null
          → name2 ≢ null
          → (connect_to_server memory u2 name2 (running_as address2 p2 k')
              ≡ (ok (0, some handle), running_as address2 p2 k'))
            × (create_server memory u2 name2 old2 (running_as address2 p2 k')
                ≡ (ok (10, old2), running_as address2 p2 k')))
create_server-connect_to_server memory u address name old p k bytes fo fi fc unused real named =
    let handle = add32 k.ipc.handle_count 1 in
    let (m', (added, others)) =
      add_new_server-connect k.ipc memory (u.text name) address 1 bytes fo fi fc unused real
        (omega arith) in
    (
      record k { ipc = m' },
      created memory u address p k name old handle named
          (create_ok memory u address p k name 0 0 handle m' named added),
      λ u2 address2 name2 old2 p2 same real2 named2.
          let k' = record k { ipc = m' } in
          let (found, again) = others address2 1 real2 (omega arith) in
          (
            connected memory u2 address2 p2 k' name2 handle named2 (
                connect_ok memory u2 address2 p2 k' name2 0 0 handle named2
                  (ap (λ n. Ipc.connect_to_server m' (some n) address2 1) same ∙ found)),
            refused memory u2 address2 p2 k' name2 old2 named2 (
                create_err memory u2 address2 p2 k' name2 0 0 m' named2
                  (ap (λ n. Ipc.add_new_server m' memory (some n) address2 1) same ∙ again)),
          ),
    )

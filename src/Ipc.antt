-- ===== src/Ipc.antt =====
-- kernel/task/Ipc/Ipc.hpp and Ipc.cpp: the servers that processes send bytes to. The list of IPC
-- objects is the list of its entries, searched as ListEnumerate does; a process is its address, and
-- so is the place that a caller gives for a result. s_IpcObjectHandleCount is a field of the state.
-- A lock is its word, with _acquire_lock of kernel/lib/asm_helper.asm as seen by a thread alone.
pub mod Servers
pub mod Locking
use lt_micros.Base.{
  ℕ, zero, suc, ◌+◌, Option, none, some, List, [], ◌∷◌, ◌++◌, Bool, true, false, if◌then◌else◌,
  ◌==◌, not, ◌&&◌, length,
}
use lt_micros.Base.Int.{is_zero}
use lt_micros.Base.Words.{null, add32}
use lt_micros.Base.Status.{
  KeStatus, null_parameter, invalid_parameter, alloc_failed, id_string_already_used,
  server_not_found, access_denied, Run, ok, err, fault, running, ◌>>=◌, ◌>>◌, reject,
}
use lt_micros.KernelList.Walk.{find_first}
use lt_micros.StdLib.{str_cmp}
use lt_micros.IpcBuffer.{IpcBuffer, add_bytes, read_bytes}

-- An id that could not be allocated is a null pointer.
pub record IpcObject : Type 0 where
  pub id : Option (List ℕ)
  pub handle : ℕ
  pub server_process : ℕ
  pub buffer : IpcBuffer
  pub lock : ℕ

-- `low_word` is the word where the lock of an object at address 0 would lie.
pub record IpcHandler : Type 0 where
  pub objects : List IpcObject
  pub handle_count : ℕ
  pub low_word : ℕ

-- What HeapAlloc answers in AddNewServer: whether there is memory for the object, for the id and for
-- the cell of the list, the new buffer, and the word that the object's memory has for the lock.
pub record Memory : Type 0 where
  pub for_object : Bool
  pub for_id : Bool
  pub for_cell : Bool
  pub buffer : IpcBuffer
  pub lock : ℕ

-- IpcHandler::Init, and the initial value of the counter.
abbrev pub init : ℕ → IpcHandler
init low_word = record { objects = []; handle_count = 0; low_word = low_word }

-- The tests of the two callbacks.
abbrev pub has_handle : ℕ → IpcObject → Bool
has_handle handle o = o.handle == handle

abbrev pub has_id : List ℕ → IpcObject → Bool
has_id id o = is_zero (str_cmp o.id (some id))

-- _FindIpcObjectByHandle
unfoldable pub find_by_handle : IpcHandler → ℕ → Option IpcObject
find_by_handle m handle = if handle == 0 then none else find_first (has_handle handle) m.objects

-- _FindIpcObjectByServerId
unfoldable pub find_by_server_id : IpcHandler → List ℕ → Option IpcObject
find_by_server_id m id = find_first (has_id id) m.objects

-- _IsServerIdStrAlreadyUsed
unfoldable pub is_id_used : IpcHandler → List ℕ → Bool
is_id_used m id = elim (find_first (has_id id) m.objects) [ none ↦ false | some o ↦ true ]

-- IpcObject::Create; that there is no memory for the id goes unnoticed.
unfoldable pub create : Memory → List ℕ → ℕ → ℕ → Run IpcObject
create memory id process handle =
    if memory.for_object
    then ok (record {
      id = if memory.for_id then some id else none;
      handle = handle;
      server_process = process;
      buffer = memory.buffer;
      lock = memory.lock;
    })
    else err alloc_failed

-- AddNewServer behind its checks.
unfoldable pub add_checked : IpcHandler → Memory → List ℕ → ℕ → Run ℕ × IpcHandler
unfolding create is_id_used
add_checked m memory id process =
    let handle = add32 m.handle_count 1 in
    let counted = record m { handle_count = handle } in
    if is_id_used m id
    then (err id_string_already_used, m)
    else elim (create memory id process handle) [
      | ok o ↦ (
        ok handle,
        if memory.for_cell then record counted { objects = m.objects ++ o ∷ [] } else counted,
      )
      | err e ↦ (err e, counted)
      | fault ↦ (fault, counted)
      | running ↦ (running, counted)
    ]

-- AddNewServer
unfoldable pub add_new_server : IpcHandler → Memory → Option (List ℕ) → ℕ → ℕ → Run ℕ × IpcHandler
unfolding add_checked
add_new_server m memory none process out_handle = (err null_parameter, m)
add_new_server m memory (some id) process out_handle =
    if process == null
    then (err null_parameter, m)
    else if out_handle == null
    then (err null_parameter, m)
    else add_checked m memory id process

-- ConnectToServer
unfoldable pub connect_to_server : IpcHandler → Option (List ℕ) → ℕ → ℕ → Run ℕ
unfolding find_by_server_id
connect_to_server m none process out_handle = err null_parameter
connect_to_server m (some id) process out_handle =
    if process == null
    then err null_parameter
    else if out_handle == null
    then err null_parameter
    else elim (find_by_server_id m id) [ none ↦ err server_not_found | some o ↦ ok o.handle ]

-- _acquire_lock by a thread that runs alone: a free lock is taken, a taken one spun on, and a word
-- that is neither is passed as it is.
unfoldable pub acquire : ℕ → Run ℕ
acquire zero = ok 1
acquire (suc zero) = running
acquire (suc (suc n)) = ok (suc (suc n))

-- The object that the search by handle finds is changed.
unfoldable pub update : ℕ → (IpcObject → IpcObject) → List IpcObject → List IpcObject
update handle f [] = []
update handle f (o ∷ os) =
    let rest = update handle f os in if has_handle handle o then f o ∷ os else o ∷ rest

-- Send behind the search, with `o` the object: on every path the lock of `o` is released, which was
-- never taken.
unfoldable pub send_to : IpcHandler → IpcObject → ℕ → List ℕ → Run (Unit {0}) × IpcHandler
unfolding update
send_to m o process message =
    if process == o.server_process
    then (
      err access_denied,
      record m { objects = update o.handle (λ o. record o { lock = 0 }) m.objects },
    )
    else let (r, b) = add_bytes (some message) o.buffer in
      (r, record m { objects = update o.handle (λ o. record o { buffer = b; lock = 0 }) m.objects })

-- Send behind its checks: the lock is taken by a pointer that is still null.
unfoldable pub send_checked : IpcHandler → ℕ → ℕ → List ℕ → Run (Unit {0}) × IpcHandler
unfolding acquire find_by_handle send_to
send_checked m handle process message = elim (acquire m.low_word) [
  | ok word ↦ elim (find_by_handle m handle) [
    | none ↦ (err server_not_found, record m { low_word = 0 })
    | some o ↦ send_to (record m { low_word = word }) o process message
  ]
  | err e ↦ (err e, m)
  | fault ↦ (fault, m)
  | running ↦ (running, m)
]

-- Send; `none` is a null message, and the size is the number of its bytes.
unfoldable pub send : IpcHandler → ℕ → ℕ → Option (List ℕ) → Run (Unit {0}) × IpcHandler
unfolding send_checked
send m handle process message =
    if handle == 0
    then (err invalid_parameter, m)
    else if process == null
    then (err null_parameter, m)
    else elim message [
      | none ↦ (err null_parameter, m)
      | some bytes ↦
          if length bytes == 0
          then (err invalid_parameter, m)
          else send_checked m handle process bytes
    ]

-- Receive with an object: EventWait, the lock, ReadBytes. A thread that has to wait is `running`.
-- On an error of ReadBytes the lock is not released.
unfoldable pub receive_from : IpcHandler → IpcObject → ℕ → Run (List ℕ) × IpcHandler
unfolding update acquire
receive_from m o size =
    let set = λ (b : IpcBuffer) (word : ℕ). record m {
      objects = update o.handle (λ o. record o { buffer = b; lock = word }) m.objects;
    } in
    let waited = record o.buffer { ready_to_read = false } in
    if not o.buffer.ready_to_read then (running, m) else elim (acquire o.lock) [
      | ok word ↦ elim (read_bytes size waited) [
        | ok (bytes, b) ↦ (ok bytes, set b 0)
        | err e ↦ (err e, set waited word)
        | fault ↦ (fault, set waited word)
        | running ↦ (running, set waited word)
      ]
      | err e ↦ (err e, set waited o.lock)
      | fault ↦ (fault, set waited o.lock)
      | running ↦ (running, set waited o.lock)
    ]

-- Receive with a buffer and a place for the count that are not null. For a process that is not the
-- server's a status is set, and the code goes on.
unfoldable pub receive : IpcHandler → ℕ → ℕ → ℕ → Run (List ℕ) × IpcHandler
unfolding find_by_handle receive_from
receive m handle process size =
    if handle == 0
    then (err invalid_parameter, m)
    else if process == null
    then (err null_parameter, m)
    else if size == 0
    then (err null_parameter, m)
    else elim (find_by_handle m handle) [
      | none ↦ (err server_not_found, m)
      | some o ↦ receive_from m o size
    ]

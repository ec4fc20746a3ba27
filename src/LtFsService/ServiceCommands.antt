-- ===== src/LtFsService/ServiceCommands.antt =====
-- userland/system/LtFsService/src/ServiceCommands.cpp with userland/system/Common/LtFsCommon.h and
-- LtFsCommon.cpp: the requests that the service answers. A list of the service is a list, to which
-- ListPush appends, if it needs no memory or gets it, and in which ListEnumerate finds the first entry
-- that passes; its entries are never null. What other parts answer is an argument: the allocations, IpcClient, and OpenFileFromName, which
-- gives a `File *`, an address.
pub mod Handles
pub mod Access
use lt_micros.Base.{
  ℕ, zero, suc, ◌+◌, ◌*◌, ◌/◌, ◌%◌, Option, none, some, List, [], ◌∷◌, ◌++◌, Bool, true, false, not,
  if◌then◌else◌, ◌==◌, leb,
}
use lt_micros.Base.Words.{add32, null}
use lt_micros.KernelList.Walk.{find_first}
use lt_micros.LtFsService.{
  Status, success, null_parameter, invalid_parameter, alloc_failed, unexpected, access_denied,
  Answer, ok, err, fault, running, ◌>>=◌,
}

abbrev pub invalid_handle_value : ℕ
invalid_handle_value = 0

-- enum FileAccess and enum FileShareMode
abbrev pub file_read : ℕ
file_read = 0

abbrev pub file_access_max : ℕ
file_access_max = 1

abbrev pub file_share_max : ℕ
file_share_max = 3

-- FlagOn(FILE_SHARE_READ, mode)
abbrev pub shares_read : ℕ → Bool
shares_read mode = mode % 2 == 1

-- `file_entries` is a `List *`.
pub record ProcessEntry : Type 0 where
  pub server_handle : ℕ
  pub process_handle : ℕ
  pub file_entries : ℕ

pub record FileEntry : Type 0 where
  pub handle : ℕ
  pub cursor : ℕ
  pub file : ℕ
  pub share_mode : ℕ

-- gSvcContext and gCurrentFileHandle, and the calls of RaiseThreadPriority (true) and
-- LowerThreadPriority (false), newest first.
pub record ServiceContext : Type 0 where
  pub processes : List ProcessEntry
  pub file_entries : List FileEntry
  pub current_file_handle : ℕ
  pub priority_calls : List Bool

pub record LtFsResponse : Type 0 where
  pub status : Status
  pub size : ℕ
  pub payload : List ℕ

pub record OpenFileParameters : Type 0 where
  pub access : ℕ
  pub share_mode : ℕ

-- A request, by its type.
pub data LtFsRequest : Type 0 where
  terminate : LtFsRequest
  connect : LtFsRequest
  open_file : OpenFileParameters → LtFsRequest
  other : ℕ → LtFsRequest

-- What the other parts answer while a request is served: the allocation of a process entry and what the
-- new memory holds, ConnectToServer, OpenFileFromName, the allocations of a file entry, of a
-- list's element and of the response, and Send.
pub record Surroundings : Type 0 where
  pub for_process : Bool
  pub memory : ProcessEntry
  pub connected : Answer ℕ
  pub opened : Answer ℕ
  pub for_file : Bool
  pub for_push : Bool
  pub for_response : Bool
  pub sent : Answer (Unit {0})

-- ServiceCommandInit, given memory for its two lists.
abbrev pub service_command_init : ServiceContext
service_command_init = record {
  processes = [];
  file_entries = [];
  current_file_handle = 0;
  priority_calls = [];
}

-- ListPush; the first element is there.
abbrev pub push {ℓ} : {A : Type ℓ} → Bool → List A → A → List A
push allocated [] x = x ∷ []
push allocated (y ∷ ys) x = if allocated then y ∷ (ys ++ x ∷ []) else y ∷ ys

-- LookForProcessFromHandle
unfoldable pub look_for_process_from_handle : ℕ → ServiceContext → Answer (Option ProcessEntry)
look_for_process_from_handle handle ctx =
    if handle == invalid_handle_value
    then err invalid_parameter
    else ok (find_first (λ (p : ProcessEntry). p.process_handle == handle) ctx.processes)

-- LookForFileEntryFromFilePtr
unfoldable pub look_for_file_entry : ℕ → ServiceContext → Answer (Option FileEntry)
look_for_file_entry file ctx =
    if file == null
    then err null_parameter
    else ok (find_first (λ (e : FileEntry). e.file == file) ctx.file_entries)

-- IsFileAccessible
unfoldable pub is_file_accessible : FileEntry → ℕ → Bool
is_file_accessible entry access = if access == file_read then shares_read entry.share_mode else true

-- CreateProcessEntry: the handle is set, the rest is what the memory held.
unfoldable pub create_process_entry : Surroundings → ℕ → Answer ProcessEntry
create_process_entry s handle =
    if handle == invalid_handle_value
    then err null_parameter
    else if not s.for_process
    then err alloc_failed
    else ok (record s.memory { process_handle = handle })

-- NewFileEntry: the entry, and the counter of handles.
unfoldable pub new_file_entry : (file access share_mode : ℕ) → Bool → ℕ → Answer FileEntry × ℕ
new_file_entry file access share_mode allocated count =
    if file == null
    then (err null_parameter, count)
    else if leb file_access_max access
    then (err invalid_parameter, count)
    else if leb file_share_max share_mode
    then (err invalid_parameter, count)
    else if not allocated
    then (err alloc_failed, count)
    else (
      ok (record { handle = add32 count 1; cursor = 0; file = file; share_mode = share_mode }),
      add32 count 1,
    )

-- LtFsResponse::Create, with the `size` bytes of the data; the structure has 12 bytes.
unfoldable pub create_response :
    Status → (has_data : Bool) → List ℕ → (size : ℕ) → Bool → Answer LtFsResponse
create_response status has_data payload size allocated =
    if not has_data
    then (if size == 0
        then (if not allocated
            then err alloc_failed
            else ok (record { status = status; size = 12; payload = [] }))
        else err invalid_parameter)
    else if not allocated
    then err alloc_failed
    else ok (record { status = status; size = 12 + size; payload = payload })

-- The bytes of a handle.
abbrev pub handle_bytes : ℕ → List ℕ
handle_bytes h = h % 256 ∷ h / 256 % 256 ∷ h / 65536 % 256 ∷ h / 0x100_0000 % 256 ∷ []

-- RequestConnect with the new entry, or why there is none.
add_process :
    Surroundings → Answer ProcessEntry → ServiceContext → Answer (Unit {0}) × ServiceContext
add_process s (ok p) ctx = (ok tt, record ctx { processes = push s.for_push ctx.processes p })
add_process s (err e) ctx = (err e, ctx)
add_process s fault ctx = (fault, ctx)
add_process s running ctx = (running, ctx)

-- RequestConnect once the processes are searched.
connect_found :
    Surroundings
    → ℕ
    → Answer (Option ProcessEntry)
    → ServiceContext
    → Answer (Unit {0}) × ServiceContext
unfolding create_process_entry add_process
connect_found s handle (ok (some p)) ctx = (ok tt, ctx)
connect_found s handle (ok none) ctx =
    add_process s
      (create_process_entry s handle >>= λ p.
        s.connected >>= λ server. ok (record p { server_handle = server }))
      ctx
connect_found s handle (err e) ctx = (err e, ctx)
connect_found s handle fault ctx = (fault, ctx)
connect_found s handle running ctx = (running, ctx)

-- RequestConnect with parameters
unfoldable pub request_connect :
    Surroundings → ℕ → ServiceContext → Answer (Unit {0}) × ServiceContext
unfolding look_for_process_from_handle connect_found
request_connect s handle ctx = connect_found s handle (look_for_process_from_handle handle ctx) ctx

-- The status, the context, and the response that was sent.
abbrev pub Served : Type 0
Served = Answer (Unit {0}) × ServiceContext × Option LtFsResponse

-- The end of RequestOpenFile: the response is sent.
send_response : Surroundings → Answer LtFsResponse → ServiceContext → Served
send_response s (ok response) ctx = elim s.sent [
  | ok u ↦ (ok tt, ctx, some response)
  | err e ↦ (err e, ctx, none)
  | fault ↦ (fault, ctx, none)
  | running ↦ (running, ctx, none)
]
send_response s (err e) ctx = (err e, ctx, none)
send_response s fault ctx = (fault, ctx, none)
send_response s running ctx = (running, ctx, none)

-- RequestOpenFile with what NewFileEntry answered. The list of the process is pushed to as its entry
-- has it: to a null pointer nothing is pushed, and any other one was never set.
grant_entry : Surroundings → ProcessEntry → Answer FileEntry → ℕ → ServiceContext → Served
unfolding create_response send_response
grant_entry s p (ok e) count ctx =
    let pushed : ServiceContext = record ctx {
      file_entries = push s.for_push ctx.file_entries e;
      current_file_handle = count;
    } in
    if p.file_entries == null
    then send_response s (create_response success true (handle_bytes e.handle) 4 s.for_response)
        pushed
    else (fault, pushed, none)
grant_entry s p (err e) count ctx = (err e, ctx, none)
grant_entry s p fault count ctx = (fault, ctx, none)
grant_entry s p running count ctx = (running, ctx, none)

-- RequestOpenFile on a file that may be opened.
grant : Surroundings → ProcessEntry → OpenFileParameters → ℕ → ServiceContext → Served
unfolding new_file_entry grant_entry
grant s p parameters file ctx =
    let (entry, count) =
      new_file_entry file parameters.access parameters.share_mode s.for_file
        ctx.current_file_handle in
    grant_entry s p entry count ctx

-- RequestOpenFile once the entries are searched: it looks at the first one of the file.
serve_found :
    Surroundings
    → ProcessEntry
    → OpenFileParameters
    → ℕ
    → Answer (Option FileEntry)
    → ServiceContext
    → Served
unfolding is_file_accessible grant create_response send_response
serve_found s p parameters file (ok none) ctx = grant s p parameters file ctx
serve_found s p parameters file (ok (some e)) ctx =
    if is_file_accessible e parameters.access
    then grant s p parameters file ctx
    else send_response s (create_response access_denied false [] 0 s.for_response) ctx
serve_found s p parameters file (err e) ctx = (err e, ctx, none)
serve_found s p parameters file fault ctx = (fault, ctx, none)
serve_found s p parameters file running ctx = (running, ctx, none)

lowered : Served → Served
lowered (r, ctx, sent) = (r, record ctx { priority_calls = false ∷ ctx.priority_calls }, sent)

-- RequestOpenFile once OpenFileFromName has answered.
serve_opened : Surroundings → ProcessEntry → OpenFileParameters → Answer ℕ → ServiceContext → Served
unfolding look_for_file_entry serve_found lowered
serve_opened s p parameters (ok file) ctx =
    lowered (serve_found s p parameters file (look_for_file_entry file ctx) ctx)
serve_opened s p parameters (err e) ctx = lowered (err e, ctx, none)
serve_opened s p parameters fault ctx = (fault, ctx, none)
serve_opened s p parameters running ctx = (running, ctx, none)

-- RequestOpenFile once the processes are searched.
serve_process :
    Surroundings → OpenFileParameters → Answer (Option ProcessEntry) → ServiceContext → Served
unfolding serve_opened lowered
serve_process s parameters (ok none) ctx = lowered (err unexpected, ctx, none)
serve_process s parameters (ok (some p)) ctx =
    serve_opened s p parameters s.opened (record ctx { priority_calls = true ∷ ctx.priority_calls })
serve_process s parameters (err e) ctx = lowered (err e, ctx, none)
serve_process s parameters fault ctx = (fault, ctx, none)
serve_process s parameters running ctx = (running, ctx, none)

-- RequestOpenFile with parameters
unfoldable pub request_open_file : Surroundings → ℕ → OpenFileParameters → ServiceContext → Served
unfolding look_for_process_from_handle serve_process
request_open_file s handle parameters ctx =
    serve_process s parameters (look_for_process_from_handle handle ctx) ctx

-- ServiceExecuteCommand on a message: what it answers, and whether the service ends.
unfoldable pub service_execute_command :
    Surroundings → ℕ → LtFsRequest → ServiceContext → Served × Bool
unfolding request_connect request_open_file
service_execute_command s handle terminate ctx = ((ok tt, ctx, none), true)
service_execute_command s handle connect ctx =
    let (r, after) = request_connect s handle ctx in ((r, after, none), false)
service_execute_command s handle (open_file parameters) ctx =
    (request_open_file s handle parameters ctx, false)
service_execute_command s handle (other t) ctx = ((err unexpected, ctx, none), false)

-- ===== src/Tests/Requests.antt =====
-- Requests to the file system service at concrete inputs.
use lt_micros.Base.{ℕ, ◌≡◌, refl, ◌==◌, some, List, [], ◌∷◌, true, arith}
use lt_micros.KernelList.Walk.{find_first}
use lt_micros.LtFsService.{ok, access_denied}
use lt_micros.LtFsService.ServiceCommands.{
  ProcessEntry, FileEntry, ServiceContext, OpenFileParameters, Surroundings, LtFsRequest, connect,
  open_file, service_command_init, request_open_file,
}
use lt_micros.LtFsService.ServiceCommands.Handles.{IsIssued, serve_all, serve_all-IsIssued}
use lt_micros.LtFsService.ServiceCommands.Access.{
  IsRequest, first_entry, untouched, request_open_file_denied,
}

abbrev client : ProcessEntry
client = record { server_handle = 3; process_handle = 5; file_entries = 0 }

abbrev surroundings : Surroundings
surroundings = record {
  for_process = true;
  memory = client;
  connected = ok 3;
  opened = ok 0x9000;
  for_file = true;
  for_push = true;
  for_response = true;
  sent = ok tt;
}

abbrev exclusive : OpenFileParameters
exclusive = record { access = 0; share_mode = 0 }

abbrev requests : List (Surroundings × ℕ × LtFsRequest)
requests = (surroundings, 5, connect) ∷ (surroundings, 5, open_file exclusive) ∷ []

serve_all-IsIssued_example :
    let after = serve_all requests service_command_init in
    IsIssued 0 after.current_file_handle after.file_entries
serve_all-IsIssued_example = serve_all-IsIssued requests (omega arith)

abbrev taken : FileEntry
taken = record { handle = 1; cursor = 0; file = 0x9000; share_mode = 0 }

-- One client, and a file that is open and not shared.
abbrev context : ServiceContext
context = record {
  processes = client ∷ [];
  file_entries = taken ∷ [];
  current_file_handle = 1;
  priority_calls = [];
}

is_taken : first_entry 0x9000 context ≡ some taken
unfolding find_first
is_taken = refl

context-IsRequest : IsRequest surroundings 5 0x9000 exclusive context
unfolding find_first
context-IsRequest = record {
  process = client;
  caller = omega arith;
  connected = refl;
  opened = refl;
  real = omega arith;
  reading = refl;
  for_response = refl;
  sent = refl;
}

request_open_file_denied_example :
    request_open_file surroundings 5 exclusive context
    ≡ (ok tt, untouched context, some (record { status = access_denied; size = 12; payload = [] }))
request_open_file_denied_example =
    request_open_file_denied [] surroundings 5 0x9000 exclusive taken context is_taken refl
      context-IsRequest

-- The same file open with FILE_SHARE_READ.
abbrev shared : FileEntry
shared = record { handle = 1; cursor = 0; file = 0x9000; share_mode = 1 }

abbrev shared_context : ServiceContext
shared_context = record context { file_entries = shared ∷ [] }

client_found :
    find_first (λ (p : ProcessEntry). p.process_handle == 5) shared_context.processes ≡ some client
unfolding find_first
client_found = refl

abbrev shared_request : IsRequest surroundings 5 0x9000 exclusive shared_context
shared_request = record {
  process = client;
  caller = omega arith;
  connected = client_found;
  opened = refl;
  real = omega arith;
  reading = refl;
  for_response = refl;
  sent = refl;
}

is_shared : first_entry 0x9000 shared_context ≡ some shared
unfolding find_first
is_shared = refl

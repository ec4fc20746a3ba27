-- ===== src/Tests/Servers.antt =====
-- The table of servers at concrete inputs.
use lt_micros.Base.{◌≡◌, refl, some, none, [], ◌∷◌, true, false, arith}
use lt_micros.Base.Status.{running}
use lt_micros.KernelList.Walk.{find_first}
use lt_micros.IpcBuffer.{IpcBuffer}
use lt_micros.Ipc.{IpcObject, IpcHandler, Memory, find_by_handle, send}
use lt_micros.Ipc.Locking.{send_hangs}

abbrev buffer : IpcBuffer
buffer = record {
  pages = [];
  write_page = none;
  write_ptr = 0;
  read_page = none;
  read_in = 0;
  read_ptr = 0;
  read_limit = 0;
  memory = λ page i. i;
  next_page = 5;
  supply = 3;
  ready_to_read = false;
}

abbrev memory : Memory
memory = record { for_object = true; for_id = true; for_cell = true; buffer = buffer; lock = 0 }

-- The server "fs" of the process at 0x5000.
abbrev file_system : IpcObject
file_system = record {
  id = some (102 ∷ 115 ∷ []);
  handle = 1;
  server_process = 0x5000;
  buffer = buffer;
  lock = 0;
}

abbrev handler : IpcHandler
handler = record { objects = file_system ∷ []; handle_count = 1; low_word = 0 }

send_hangs_example :
    (send (send handler 1 0x6000 (some (7 ∷ []))).1 1 0x8000 (some (8 ∷ []))).0 ≡ running
unfolding find_by_handle find_first
send_hangs_example =
    send_hangs handler file_system 1 0x6000 (7 ∷ []) refl refl (omega arith) (omega arith)
      (omega arith) 1 0x8000 (8 ∷ []) (omega arith) (omega arith) (omega arith)

-- ===== src/LtDbg.antt =====
-- kernel/debug/LtDbg.cpp: the debugger of the kernel, which answers its client's requests while the
-- interrupted task stands still. What it looks at, memory, page tables and the interrupt table, is a
-- parameter, as is what HeapAlloc answers; that these stay as they are while it works, also where its
-- own blocks lie, is taken for granted. A command reads and changes the session: the request, the
-- response and the registers of the task.
pub mod Command
pub mod Answer
pub mod Rounds
pub mod Dialogue
pub mod Repeats
pub mod Traces
use lt_micros.Base.{
  ℕ, zero, suc, ◌+◌, ◌-◌, ◌*◌, ◌/◌, ◌%◌, ◌^◌, Option, none, some, List, [], ◌∷◌, ◌++◌, Bool, true,
  false, not, ◌&&◌, ◌||◌, if◌then◌else◌, ◌==◌,
}
use lt_micros.Base.Words.{null, add32, sub32, mul32}
use lt_micros.Base.LittleEndian.{word_bytes, word_of}
use lt_micros.Base.Status.{KeStatus, failure, Run, ok, err, fault, running}
use lt_micros.KernelList.{KernelList}
use lt_micros.KernelList
use lt_micros.LtFsService.Bytes.{bytes_at}
use lt_micros.LtDbg.Command
use lt_micros.LtDbg.Answer
use lt_micros.LtDbgCom.{
  Line, M, ◌>>=◌, ◌>>◌, give, fail, crash, spin, KeDebugContext, KeDebugRequest, KeDebugResponse,
  read_byte, write_byte, heap_free, byte_in, word_in, heap_alloc, recv_request, send_response,
}

-- DEFAULT_ASM_BUFFER_SIZE, sizeof(KeDebugDisassParamRes) and sizeof(KeDebugMemoryParamReq)
abbrev pub asm_buffer_size : ℕ
asm_buffer_size = 20

abbrev pub disass_res_size : ℕ
disass_res_size = 12

abbrev pub memory_req_size : ℕ
memory_req_size = 8

-- What the debugger looks at: a byte of memory and whether an address is mapped, under a page
-- directory; the name of the current process, if there is one; the interrupt table; what HeapAlloc
-- answers, and what lies behind a block.
pub record Target : Type 0 where
  pub memory : (directory address : ℕ) → ℕ
  pub available : (directory address : ℕ) → Bool
  pub process_name : Option (List ℕ)
  pub idt_base : ℕ
  pub idt_limit : ℕ
  pub heap : (call size : ℕ) → ℕ
  pub behind : ℕ → ℕ

pub record Session : Type 0 where
  pub request : KeDebugRequest
  pub response : KeDebugResponse
  pub context : KeDebugContext

-- `eflags |= TRAP_FLAG_MASK`, and `eflags &= 0x0FEFF`, which clears the upper half as well.
unfoldable pub set_trap_flag : ℕ → ℕ
set_trap_flag eflags = if eflags / 256 % 2 == 1 then eflags else eflags + 256

unfoldable pub clear_trap_flag : ℕ → ℕ
clear_trap_flag eflags = let low = eflags % 65536 in if low / 256 % 2 == 1 then low - 256 else low

-- The response with a command and the registers, and then with the outcome.
abbrev pub answering : ℕ → KeDebugContext → KeDebugResponse → KeDebugResponse
answering command context r = record r { command = command; context = context }

abbrev pub outcome : (status data_size block : ℕ) → List ℕ → KeDebugResponse → KeDebugResponse
outcome status data_size block bytes r = record r {
  status = status;
  data_size = data_size;
  block = block;
  block_bytes = bytes;
}

abbrev pub replied : Session → KeDebugResponse → Session
replied s r = record s { response = r }

-- The end of a command: whether the task goes on, and the session.
abbrev pub Reply : Type 0
Reply = M (Bool × Session)

-- A command that has no parameters and answers with the registers alone.
plainly : (command : ℕ) (resumes : Bool) → Session → Reply
plainly command resumes s =
    give (
      resumes,
      replied s (outcome Answer.success 0 null [] (answering command s.context s.response)),
    )

flags_to : ℕ → Session → Session
flags_to eflags s = record s { context = record s.context { eflags = eflags } }

-- LtDbg::StepCommand, ContinueCommand, QuitCommand, RegistersCommand
unfoldable pub step_command : Session → Reply
unfolding plainly flags_to set_trap_flag
step_command s = plainly Command.step true (flags_to (set_trap_flag s.context.eflags) s)

unfoldable pub continue_command : Session → Reply
unfolding plainly flags_to clear_trap_flag
continue_command s = plainly Command.continue true (flags_to (clear_trap_flag s.context.eflags) s)

unfoldable pub quit_command : Session → Reply
unfolding plainly flags_to clear_trap_flag
quit_command s = plainly Command.quit true (flags_to (clear_trap_flag s.context.eflags) s)

unfoldable pub registers_command : Session → Reply
unfolding plainly
registers_command s = plainly Command.registers false s

-- The parameter of ListPush: a null pointer is no data.
abbrev pub to_data : ℕ → Option ℕ
to_data zero = none
to_data (suc n) = some (suc n)

-- ListPush on a list that ListCreate may not have made.
abbrev pub push : Bool → Option (KernelList ℕ) → ℕ → Option (KernelList ℕ)
push allocated none d = none
push allocated (some l) d = some (KernelList.push allocated l (to_data d))

-- Whether ListPush asks for a cell.
abbrev pub needs_cell : Option (KernelList ℕ) → Bool
needs_cell none = false
needs_cell (some l) = not (KernelList.is_none l.head)

-- The loop of StackTraceCommand that pops until it gets 0; a list has no more than `cells` cells.
unfoldable pub pop_all : (cells : ℕ) → KernelList ℕ → List ℕ
pop_all zero l = []
pop_all (suc cells) l =
    let rest = pop_all cells (KernelList.pop l).1 in
    elim (KernelList.pop l).0 [ none ↦ [] | some a ↦ a ∷ rest ]

abbrev pub words : List ℕ → List ℕ
words [] = []
words (w ∷ ws) = word_bytes w ++ words ws

module _ (t : Target) where
  unfoldable pub alloc : ℕ → M ℕ
  alloc = heap_alloc t.heap t.behind

  -- A word of memory under the directory of the interrupted task.
  unfoldable pub word_at : (directory address : ℕ) → ℕ
  unfolding word_of
  word_at directory address =
      word_of (t.memory directory address) (t.memory directory (address + 1))
        (t.memory directory (address + 2)) (t.memory directory (address + 3))

  unfoldable pub param_word : KeDebugRequest → ℕ → ℕ
  param_word r i = word_in t.behind r.param_bytes i

  -- DisassCommand behind its checks, for `n` instructions. Without memory the answer is written
  -- through the null pointer.
  unfoldable pub disassemble : (n : ℕ) → Session → Reply
  unfolding alloc
  disassemble n s =
      let length = mul32 n asm_buffer_size in
      let size = add32 disass_res_size length in
      alloc size >>= λ a.
      if a == null
      then crash
      else give (
        false,
        replied s (
            outcome Answer.success size a
              (word_bytes length
                ++ (word_bytes s.context.eip
                    ++ bytes_at (t.memory s.context.cr3) s.context.eip length))
              s.response),
      )

  -- LtDbg::DisassCommand; where it fails, the data of the response is that of the one before.
  unfoldable pub disass_command : Session → Reply
  unfolding disassemble param_word
  disass_command s =
      let begun = replied s (answering Command.disass s.context s.response) in
      if s.request.param_size == 0 || s.request.param == null
      then give (false, replied begun (record begun.response { status = Answer.failure }))
      else if param_word s.request 0 == 0
      then give (false, replied begun (record begun.response { status = Answer.success }))
      else disassemble (param_word s.request 0) begun

  -- The loop of StackTraceCommand over the frames from `ebp` on: the list, the addresses of its cells,
  -- the newest first, and nbPtr.
  unfoldable pub walk_frames :
      (fuel directory ebp : ℕ) (l : Option (KernelList ℕ)) (cells : List ℕ) (count : ℕ)
      → M (Option (KernelList ℕ) × List ℕ × ℕ)
  unfolding alloc word_at
  walk_frames zero directory ebp l cells count = spin
  walk_frames (suc fuel) directory ebp l cells count =
      if ebp == null
      then give (l, cells, count)
      else (if needs_cell l then alloc 12 else give null) >>= λ cell.
          walk_frames fuel directory (word_at directory ebp)
            (push (not (needs_cell l && cell == null)) l (word_at directory (ebp + 4)))
            (if cell == null then cells else cell ∷ cells) (count + 1)

  -- Each ListPop but the one of the last cell frees the first cell, and ListDestroy frees the others: all
  -- in all every cell once, the oldest first. Without a list nothing is freed.
  free_cells : List ℕ → M (Unit {0})
  free_cells cells s = (ok tt, record s { freed = cells ++ s.freed })

  -- The end of StackTraceCommand, with the list, its cells and the number of addresses. Without memory
  -- the response stays as it was.
  unfoldable pub answer_trace : Session → Option (KernelList ℕ) × List ℕ × ℕ → Reply
  unfolding alloc pop_all free_cells
  answer_trace s (l, cells, count) = alloc (mul32 count 4) >>= λ a.
      free_cells cells
      >> (if a == null
          then give (false, s)
          else give (
            false,
            replied s (
                outcome Answer.success (mul32 count 4) a
                  (words (elim l [ none ↦ [] | some l ↦ pop_all (count + 1) l ]))
                  (answering Command.stack_trace s.context s.response)),
          ))

  -- LtDbg::StackTraceCommand: ListCreate allocates the first cell, and each push behind the first one
  -- another.
  unfoldable pub stack_trace_command : (fuel : ℕ) → Session → Reply
  unfolding walk_frames answer_trace
  stack_trace_command fuel s = alloc 12 >>= λ cell.
      let made = if cell == null then none else some KernelList.create in
      let cells = if cell == null then [] else cell ∷ [] in
      walk_frames fuel s.context.cr3 s.context.ebp (push true made s.context.eip) cells 1
      >>= answer_trace s

  -- MemoryCommand behind its checks.
  unfoldable pub read_memory : (address size : ℕ) → Session → Reply
  unfolding alloc
  read_memory address size s = alloc size >>= λ a.
      if a == null
      then give (false, replied s (outcome Answer.failure 0 null [] s.response))
      else give (
        false,
        replied s (
            outcome Answer.success size a (bytes_at (t.memory s.context.cr3) address size)
              s.response),
      )

  -- An answer of MemoryCommand without memory.
  unfoldable pub refuse : (status : ℕ) → Session → Reply
  refuse status s = give (false, replied s (outcome status 0 null [] s.response))

  -- MemoryCommand with its parameters: both ends of the range have to be mapped.
  unfoldable pub read_mapped : (size address : ℕ) → Session → Reply
  unfolding read_memory refuse
  read_mapped size address s =
      if not (t.available s.context.cr3 address)
      then refuse Answer.memory_unavailable s
      else if not (t.available s.context.cr3 (sub32 (add32 address size) 1))
      then refuse Answer.memory_unavailable s
      else read_memory address size s

  -- LtDbg::MemoryCommand, which looks at memory with the directory of the interrupted task.
  unfoldable pub memory_command : Session → Reply
  unfolding read_mapped param_word refuse
  memory_command s =
      let begun = replied s (answering Command.memory s.context s.response) in
      if not (s.request.param_size == memory_req_size)
      then refuse Answer.wrong_parameter begun
      else read_mapped (param_word s.request 0) (param_word s.request 4) begun

  -- LtDbg::IdtCommand
  unfoldable pub idt_command : Session → Reply
  unfolding alloc
  idt_command s = alloc t.idt_limit >>= λ a.
      if a == null
      then give (false, replied s (outcome Answer.failure 0 null [] s.response))
      else give (
        false,
        replied s (
            outcome Answer.success t.idt_limit a
              (bytes_at (t.memory s.context.cr3) t.idt_base t.idt_limit)
              (answering Command.idt s.context s.response)),
      )

  -- The switch of WaitForPacket. CMD_BP does nothing, so the response is the one before.
  unfoldable pub dispatch : (fuel : ℕ) → Session → Reply
  unfolding step_command continue_command quit_command registers_command disass_command
      stack_trace_command memory_command idt_command
  dispatch fuel s =
      let command = s.request.command in
      if command == Command.step
      then step_command s
      else if command == Command.continue
      then continue_command s
      else if command == Command.quit
      then quit_command s
      else if command == Command.registers
      then registers_command s
      else if command == Command.disass
      then disass_command s
      else if command == Command.stack_trace
      then stack_trace_command fuel s
      else if command == Command.memory
      then memory_command s
      else if command == Command.breakpoint
      then give (false, s)
      else if command == Command.idt
      then idt_command s
      else give (
        false,
        replied s (outcome Answer.failure 0 null [] (answering command s.context s.response)),
      )

  -- UpdateKeDebugResponseWithProcessInfo; without a current process the name stays as it is.
  unfoldable pub update_process_info : KeDebugResponse → KeDebugResponse
  update_process_info r = elim t.process_name [
    | none ↦ r
    | some name ↦ record r { process_name = name }
  ]

  -- A call whose status is only logged.
  unfoldable pub logged : M (Unit {0}) → M (Unit {0})
  logged m s = elim (m s).0 [
    | ok u ↦ (ok tt, (m s).1)
    | err e ↦ (ok tt, (m s).1)
    | fault ↦ (fault, (m s).1)
    | running ↦ (running, (m s).1)
  ]

  unfoldable pub send : KeDebugResponse → M (Unit {0})
  send = send_response t.heap t.behind

  -- CleanupKeDebugRequest and CleanupKeDebugResponse; the pointers stay as they are.
  unfoldable pub cleanup : ℕ → M (Unit {0})
  unfolding heap_free
  cleanup a = if a == null then give tt else heap_free a

  -- The end of a round of WaitForPacket.
  unfoldable pub finish : (resumes : Bool) → Session → Reply
  unfolding logged cleanup send
  finish resumes s =
      (if resumes then give tt else logged (send s.response))
      >> (cleanup s.request.param >> (cleanup s.response.block >> give (resumes, s)))

  unfoldable pub conclude : Bool × Session → Reply
  unfolding finish update_process_info
  conclude (resumes, s) = finish resumes (replied s (update_process_info s.response))

  -- A round of WaitForPacket behind RecvRequest.
  unfoldable pub serve : (fuel : ℕ) → Session → Reply
  unfolding dispatch conclude
  serve fuel s = dispatch fuel s >>= conclude

  unfoldable pub receive : Session → M Session
  receive s = recv_request t.heap t.behind s.request >>= λ r. give (record s { request = r })

  -- LtDbg::WaitForPacket with a context: the loop, with the session that a round leaves to the next.
  -- `frames` is the fuel for the loop over the frames of a stack.
  unfoldable pub wait_for_packet : (fuel frames : ℕ) → Session → M Session
  unfolding serve receive
  wait_for_packet zero frames s line = (running, line)
  wait_for_packet (suc fuel) frames s line =
      (receive s >>= serve frames >>= λ r l. elim r.0 [
        | true ↦ (ok r.1, l)
        | false ↦ wait_for_packet fuel frames r.1 l
      ])
        line

  -- LtDbg::BreakpointHit
  unfoldable pub breakpoint_hit : (uninitialised : KeDebugResponse) → KeDebugContext → M (Unit {0})
  unfolding update_process_info logged send
  breakpoint_hit r context = logged (
      send (
        update_process_info
          (outcome Answer.breakpoint_reached 0 null [] (answering Command.unknown context r))))

  -- WaitForConnectCommand behind the first byte: whether the client is connected.
  unfoldable pub accept : (s : Session) (connected : Bool) → M Bool
  unfolding update_process_info logged send
  accept s connected line = elim (recv_request t.heap t.behind s.request line).0 [
    | ok r ↦
        (if r.command == Command.connect
            then logged (
                send (
                  update_process_info (
                    outcome Answer.success 0 null []
                      (answering Command.connect s.context s.response))))
              >> give true
            else give connected)
          (recv_request t.heap t.behind s.request line).1
    | err e ↦ (ok connected, (recv_request t.heap t.behind s.request line).1)
    | fault ↦ (fault, (recv_request t.heap t.behind s.request line).1)
    | running ↦ (running, (recv_request t.heap t.behind s.request line).1)
  ]

  -- LtDbg::WaitForConnectCommand with a context: `_isConnected` afterwards, which a first byte of 1
  -- sets whatever follows.
  unfoldable pub wait_for_connect_command : (s : Session) (connected : Bool) → M Bool
  unfolding accept read_byte write_byte
  wait_for_connect_command s connected =
      read_byte >>= λ b. write_byte 1 >> accept s (if b == 1 then true else connected)

  -- DebugIsr and BreakpointIsr; WaitForPacket has variables of its own. The registers that the task
  -- resumes with, and `_isConnected`.
  unfoldable pub debug_isr :
      (fuel frames : ℕ) (initialized connected : Bool) → Session → M KeDebugContext
  unfolding breakpoint_hit wait_for_packet
  debug_isr fuel frames initialized connected s =
      if not initialized || not connected
      then give s.context
      else breakpoint_hit s.response s.context >> wait_for_packet fuel frames s >>= λ s'.
          give s'.context

  unfoldable pub breakpoint_isr :
      (fuel frames : ℕ) (initialized connected : Bool) → Session → M (KeDebugContext × Bool)
  unfolding wait_for_connect_command breakpoint_hit wait_for_packet
  breakpoint_isr fuel frames initialized connected s =
      let greet =
        if connected
        then breakpoint_hit s.response s.context >> give true
        else wait_for_connect_command s connected in
      if not initialized
      then give (s.context, connected)
      else greet >>= λ connected'.
          wait_for_packet fuel frames s >>= λ s'. give (s'.context, connected')

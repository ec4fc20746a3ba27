-- ===== src/Tests/Debugger.antt =====
-- The debugger at concrete inputs.
use lt_micros.Base.{
  ℕ, ◌+◌, ◌*◌, ◌≡◌, refl, some, List, [], ◌∷◌, ◌++◌, true, false, if◌then◌else◌, ◌==◌, length,
  arith,
}
use lt_micros.Base.Words.{null}
use lt_micros.Base.LittleEndian.{word_bytes, word_of}
use lt_micros.Base.Status.{ok}
use lt_micros.LtFsService.Bytes.{bytes_at, length-bytes_at}
use lt_micros.LtDbgCom.{
  Granting, ◌>>=◌, KeDebugContext, KeDebugRequest, KeDebugResponse, recv_request,
}
use lt_micros.LtDbgCom.Packets.{line, request_packet, recv_request_sent}
use lt_micros.LtDbgCom.Response.{response_packet}
use lt_micros.LtDbg.{
  Target, Session, clear_trap_flag, answering, outcome, replied, words, word_at,
  stack_trace_command, wait_for_packet, receive, serve,
}
use lt_micros.LtDbg.Command
use lt_micros.LtDbg.Answer
use lt_micros.LtDbg.Rounds.{Ask, ask_params, asking, CanRead, standing, told}
use lt_micros.LtDbg.Dialogue.{asks_sent, asks_told, wait_for_packet-asks_told}
use lt_micros.LtDbg.Repeats.{empty_packet_repeats}
use lt_micros.LtDbg.Traces.{Frame, stack_trace_command-returns}

-- Two frames on the stack, at 0x1000 and 0x2000.
abbrev byte : ℕ → ℕ
byte a =
    if a == 0x1001
    then 0x20
    else if a == 0x1005
    then 0x01
    else if a == 0x1006
    then 0x40
    else if a == 0x2005
    then 0x02
    else if a == 0x2006
    then 0x40
    else 0

abbrev name : List ℕ
name = bytes_at (λ i. b'a') 0 512

abbrev target : Target
target = record {
  memory = λ directory address. byte address;
  available = λ directory address. true;
  process_name = some name;
  idt_base = 0x800;
  idt_limit = 2040;
  heap = λ call size. 0x50_0000 + 0x1000 * call;
  behind = λ i. 0;
}

granted : Granting target.heap
granted call size real small = ground arith

name-length : length name ≡ 512
name-length = length-bytes_at (λ i. b'a') 0 512

abbrev context : KeDebugContext
context = record {
  cr3 = 0x10_0000;
  cr2 = 0;
  cr0 = 0;
  gs = 0;
  fs = 0;
  es = 0;
  ds = 0;
  ss = 0;
  edi = 0;
  esi = 0;
  ebp = 0x1000;
  esp = 0xff0;
  ebx = 0;
  edx = 0;
  ecx = 0;
  eax = 0;
  eip = 0x40_0000;
  cs = 0x1b;
  padding = 0;
  eflags = 0x302;
}

abbrev before : KeDebugRequest
before = record { command = Command.unknown; param_size = 0; param = null; param_bytes = [] }

abbrev no_response : KeDebugResponse
no_response = record {
  command = Command.unknown;
  status = Answer.success;
  context = context;
  process_name = name;
  data_size = 0;
  block = null;
  block_bytes = [];
}

abbrev ask : Ask
ask = record { address = 0x1000; size = 8 }

abbrev second : Ask
second = record { address = 0x2000; size = 4 }

ask-CanRead : CanRead target context ask
ask-CanRead = record {
  in_space = omega arith;
  real = omega arith;
  fits = omega arith;
  starts = refl;
  ends = refl;
}

second-CanRead : CanRead target context second
second-CanRead = record {
  in_space = omega arith;
  real = omega arith;
  fits = omega arith;
  starts = refl;
  ends = refl;
}

wait_for_packet-asks_told_example :
    (s' : Session) × (freed' : List ℕ) × (wait_for_packet target 3 0
        (standing context before no_response)
        (line (asks_sent (ask ∷ second ∷ []) ++ []) [] 0 [])
      ≡ (ok s', line [] ([] ++ asks_told target context name (ask ∷ second ∷ [])) 9 freed'))
    × (s'.context ≡ record context { eflags = clear_trap_flag 0x302 })
    × (length freed' ≡ 7)
wait_for_packet-asks_told_example =
    wait_for_packet-asks_told target context granted name refl name-length (ask ∷ second ∷ []) 0 0
      before no_response [] [] [] (ask-CanRead, (second-CanRead, tt))

empty_packet_repeats_example :
    (receive target (standing context before no_response) >>= serve target 0 >>= λ first.
    receive target first.1 >>= serve target 0)
      (line (request_packet Command.memory (ask_params ask) ++ (word_bytes 0 ++ [])) [] 0 [])
    ≡ (
      ok (false, standing context (asking 0x50_1000 ask) (told target context name 0x50_4000 ask)),
      line []
          (([] ++ response_packet (told target context name 1 ask))
            ++ response_packet (told target context name 1 ask))
          6
          (0x50_4000 ∷ 0x50_1000 ∷ 0x50_2000 ∷ 0x50_1000 ∷ 0x50_0000 ∷ []),
    )
empty_packet_repeats_example =
    empty_packet_repeats target context granted name refl name-length ask 0 before no_response [] []
      0 [] ask-CanRead

abbrev frames : List Frame
frames =
    record { caller = 0x2000; return = 0x40_0100 } ∷ record { caller = 0; return = 0x40_0200 } ∷ []

stack_trace_command-returns_example :
    stack_trace_command target 3 (standing context before no_response) (line [] [] 0 []) ≡ (
      ok (
        false,
        replied (standing context before no_response) (
            outcome Answer.success 12 0x50_3000
              (words (0x40_0000 ∷ 0x40_0100 ∷ 0x40_0200 ∷ []))
              (answering Command.stack_trace context no_response)),
      ),
      line [] [] 4 (0x50_2000 ∷ 0x50_1000 ∷ 0x50_0000 ∷ []),
    )
unfolding word_at word_of
stack_trace_command-returns_example =
    stack_trace_command-returns target granted frames 0 (standing context before no_response) [] []
      [] (omega arith) (omega arith)
      (omega arith, omega arith, refl, refl, (omega arith, omega arith, refl, refl, refl))

recv_request_sent_example :
    recv_request
      (λ call size. 0x50_0000 + 0x1000 * call)
      (λ i. 0)
      before
      (line (request_packet Command.memory (1 ∷ 2 ∷ 3 ∷ []) ++ (9 ∷ [])) [] 0 [])
    ≡ (
      ok (record {
        command = Command.memory;
        param_size = 3;
        param = 0x50_1000;
        param_bytes = 1 ∷ 2 ∷ 3 ∷ [];
      }),
      line (9 ∷ []) [] 2 (0x50_0000 ∷ []),
    )
recv_request_sent_example =
    recv_request_sent (λ call size. 0x50_0000 + 0x1000 * call) (λ i. 0) before Command.memory
      (1 ∷ 2 ∷ 3 ∷ []) (9 ∷ []) [] 0 [] (omega arith) (omega arith) (omega arith) refl refl

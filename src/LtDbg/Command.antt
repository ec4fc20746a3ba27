-- ===== src/LtDbg/Command.antt =====
-- kernel/debug/LtDbgCommands.hpp: CommandId, less the two commands that nothing looks for.
use lt_micros.Base.{ℕ}

abbrev pub connect : ℕ
connect = 0

abbrev pub step : ℕ
step = 1

abbrev pub continue : ℕ
continue = 2

abbrev pub quit : ℕ
quit = 3

abbrev pub registers : ℕ
registers = 4

abbrev pub disass : ℕ
disass = 5

abbrev pub stack_trace : ℕ
stack_trace = 6

abbrev pub memory : ℕ
memory = 7

abbrev pub breakpoint : ℕ
breakpoint = 8

abbrev pub idt : ℕ
idt = 10

abbrev pub unknown : ℕ
unknown = 11

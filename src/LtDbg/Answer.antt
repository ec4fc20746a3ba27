-- ===== src/LtDbg/Answer.antt =====
-- kernel/debug/Common.hpp: KeDebugStatus, less the one that nothing answers.
use lt_micros.Base.{ℕ}

abbrev pub success : ℕ
success = 0

abbrev pub failure : ℕ
failure = 1

abbrev pub breakpoint_reached : ℕ
breakpoint_reached = 3

abbrev pub wrong_parameter : ℕ
wrong_parameter = 4

abbrev pub memory_unavailable : ℕ
memory_unavailable = 5

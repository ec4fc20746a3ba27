-- ===== src/LtDbg/Dialogue.antt =====
-- kernel/debug/LtDbg.cpp: a client that reads memory and then lets the task go on.
use lt_micros.Base.{
  ℕ, suc, ◌+◌, ◌*◌, ◌≡◌, ap, sym, ◌∙◌, some, List, [], ◌∷◌, ◌++◌, Bool, true, false, length,
  append_assoc, append_nil, arith,
}
use lt_micros.Base.Status.{Run, ok}
use lt_micros.LtDbgCom.{Granting, Line, ◌>>=◌, KeDebugContext, KeDebugRequest, KeDebugResponse}
use lt_micros.LtDbgCom.Packets.{line, bind_ok, request_packet}
use lt_micros.LtDbgCom.Response.{response_packet}
use lt_micros.LtDbg.Rounds.{
  Ask, ask_params, asking, standing, CanRead, told, serve_continue, receive_continue, round_memory,
}
use lt_micros.LtDbg.Command
use lt_micros.LtDbg.{Target, Session, clear_trap_flag, serve, receive, wait_for_packet}

-- What the client sends to read ranges and then let the task go on.
abbrev pub asks_sent : List Ask → List ℕ
asks_sent [] = request_packet Command.continue []
asks_sent (a ∷ more) = request_packet Command.memory (ask_params a) ++ asks_sent more

module _ (t : Target) (c : KeDebugContext) where
  -- What it gets.
  abbrev pub asks_told : (name : List ℕ) → List Ask → List ℕ
  asks_told name [] = []
  asks_told name (a ∷ more) = response_packet (told t c name 1 a) ++ asks_told name more

  abbrev AllCanRead : List Ask → Type 0
  AllCanRead [] = Unit {0}
  AllCanRead (a ∷ more) = CanRead t c a × AllCanRead more

module _ (t : Target) where
  wait_step :
      (fuel frames : ℕ) (s s' : Session) (resumes : Bool) (l l' : Line)
      → (receive t s >>= serve t frames) l ≡ (ok (resumes, s'), l')
      → wait_for_packet t (suc fuel) frames s l
        ≡ (elim resumes [ true ↦ (ok s', l') | false ↦ wait_for_packet t fuel frames s' l' ])
  unfolding wait_for_packet
  wait_step fuel frames s s' resumes l l' e =
      bind_ok (receive t s >>= serve t frames)
        (λ r l. elim r.0 [ true ↦ (ok r.1, l) | false ↦ wait_for_packet t fuel frames r.1 l ]) l e

  same_line :
      {o o' : List ℕ} {k k' : ℕ} (s : Session) (rest freed : List ℕ)
      → o ≡ o'
      → k ≡ k'
      → ◌≡◌ {A = Run Session × Line} (ok s, line rest o k freed) (ok s, line rest o' k' freed)
  same_line s rest freed e f = λ i. (ok s, line rest (e i) (f i) freed)

module _ (t : Target) (c : KeDebugContext) (granted : Granting t.heap) (name : List ℕ)
    (named : t.process_name ≡ some name) (full : length name ≡ 512) where
  -- A client sends a request for each of some ranges of memory, neither empty nor of 2 ^ 31 bytes or
  -- more, which end inside the address space and whose ends are mapped for the interrupted task, and
  -- then one to go on. Given memory for every size that HeapAlloc takes and a current process,
  -- WaitForPacket takes exactly these packets, answers each request for memory, in order, with a
  -- packet that holds the bytes of the range, sends nothing else, and ends with the registers of the
  -- task as they were but for the flags, in which the trap flag and the upper half are cleared. For
  -- each answer it allocates four blocks and frees three.
  pub wait_for_packet-asks_told :
      (asks : List Ask) (frames n : ℕ) (q : KeDebugRequest) (r : KeDebugResponse)
      (rest out freed : List ℕ)
      → AllCanRead t c asks
      → (s' : Session) × (freed' : List ℕ) × (wait_for_packet t
            (suc (length asks))
            frames
            (standing c q r)
            (line (asks_sent asks ++ rest) out n freed)
          ≡ (ok s', line rest (out ++ asks_told t c name asks) (n + 4 * length asks + 1) freed'))
        × (s'.context ≡ record c { eflags = clear_trap_flag c.eflags })
        × (length freed' ≡ length freed + 3 * length asks + 1)
  wait_for_packet-asks_told [] frames n q r rest out freed h =
      let (s', served, kept) =
        serve_continue t c granted name named full frames r rest out (n + 1) (t.heap n 8 ∷ freed) in
      (
        s',
        t.heap n 8 ∷ freed,
        wait_step t 0 frames (standing c q r) s' true
              (line (request_packet Command.continue [] ++ rest) out n freed)
              (line rest out (n + 1) (t.heap n 8 ∷ freed))
              (bind_ok (receive t (standing c q r)) (serve t frames)
                  (line (request_packet Command.continue [] ++ rest) out n freed)
                  (receive_continue t c granted name named full q r rest out n freed)
                ∙ served)
            ∙ same_line t s' rest (t.heap n 8 ∷ freed) (sym (append_nil out)) (omega arith),
        kept,
        omega arith,
      )
  wait_for_packet-asks_told (a ∷ more) frames n q r rest out freed h =
      let b = t.heap (n + 1 + 1) a.size in
      let q' = asking (t.heap (n + 1) 8) a in
      let freed1 = b ∷ t.heap (n + 1) 8 ∷ t.heap n 16 ∷ freed in
      let out1 = out ++ response_packet (told t c name 1 a) in
      let (s', freed', ended, kept, leaked) =
        wait_for_packet-asks_told more frames (n + 1 + 1 + 1 + 1) q' (told t c name b a) rest out1
          freed1 h.1 in
      (
        s',
        freed',
        ap
              (λ i.
                wait_for_packet t (suc (suc (length more))) frames (standing c q r)
                  (line i out n freed))
              (append_assoc (request_packet Command.memory (ask_params a)) (asks_sent more) rest)
            ∙ wait_step t (suc (length more)) frames (standing c q r)
                (standing c q' (told t c name b a)) false
                (line (request_packet Command.memory (ask_params a) ++ (asks_sent more ++ rest)) out
                  n freed)
                (line (asks_sent more ++ rest) out1 (n + 1 + 1 + 1 + 1) freed1)
                (round_memory t c granted name named full a frames q r (asks_sent more ++ rest) out
                  n freed h.0)
            ∙ ended
            ∙ same_line t s' rest freed'
                (append_assoc out (response_packet (told t c name 1 a)) (asks_told t c name more))
                (omega arith),
        kept,
        omega arith,
      )

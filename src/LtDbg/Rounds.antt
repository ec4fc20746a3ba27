-- ===== src/LtDbg/Rounds.antt =====
-- kernel/debug/LtDbg.cpp: a round of the debugger, with a request for memory or one to go on.
use lt_micros.Base.{
  ◌≤◌, ℕ, ◌+◌, ◌^◌, ◌<◌, ◌≡◌, refl, ap, ◌∙◌, some, List, [], ◌∷◌, ◌++◌, true, false, ◌==◌, length,
  arith,
}
use lt_micros.Base.Words.{null, add32, sub32}
use lt_micros.Base.LittleEndian.{word_bytes}
use lt_micros.Base.Status.{Run, ok, err, fault, running}
use lt_micros.LtFsService.Bytes.{bytes_at, length-bytes_at}
use lt_micros.LtDbgCom.{
  Granting, Line, M, ◌>>=◌, ◌>>◌, give, KeDebugContext, KeDebugRequest, KeDebugResponse,
  header_size, header_bytes, heap_free, heap_alloc, recv_request,
}
use lt_micros.LtDbgCom.Packets.{
  line, bind_ok, request_packet, word_in_first, word_in_second, recv_request_sent,
  recv_request_plain,
}
use lt_micros.LtDbgCom.Response.{response_packet, send_response_lem}
use lt_micros.LtDbg.Command
use lt_micros.LtDbg.Answer
use lt_micros.LtDbg.{
  Target, Session, clear_trap_flag, answering, outcome, memory_command, read_memory, read_mapped,
  param_word, dispatch, update_process_info, logged, cleanup, finish, conclude, serve, receive,
  send,
}

-- A range of memory that the client asks for.
pub record Ask : Type 0 where
  pub address : ℕ
  pub size : ℕ

abbrev pub ask_params : Ask → List ℕ
ask_params a = word_bytes a.size ++ (word_bytes a.address ++ [])

-- The request for it, with its parameters in a block at `block`.
abbrev pub asking : (block : ℕ) → Ask → KeDebugRequest
asking block a = record {
  command = Command.memory;
  param_size = 8;
  param = block;
  param_bytes = ask_params a;
}

-- The request to go on.
abbrev pub plain_continue : KeDebugRequest
plain_continue = record {
  command = Command.continue;
  param_size = 0;
  param = null;
  param_bytes = [];
}

module _ (t : Target) (c : KeDebugContext) where
  -- The range can be asked for, and both its ends are mapped for the task.
  pub record CanRead (a : Ask) : Type 0 where
    pub in_space : a.address + a.size ≤ 2 ^ 32
    pub real : 0 < a.size
    pub fits : header_size + a.size < 2 ^ 31
    pub starts : t.available c.cr3 a.address ≡ true
    pub ends : t.available c.cr3 (sub32 (add32 a.address a.size) 1) ≡ true

  -- The answer to it: the bytes of the range, in a block at `block`.
  abbrev pub told : (name : List ℕ) (block : ℕ) → Ask → KeDebugResponse
  told name block a = record {
    command = Command.memory;
    status = Answer.success;
    context = c;
    process_name = name;
    data_size = a.size;
    block = block;
    block_bytes = bytes_at (t.memory c.cr3) a.address a.size;
  }

module _ (c : KeDebugContext) where
  abbrev pub standing : KeDebugRequest → KeDebugResponse → Session
  standing q r = record { request = q; response = r; context = c }

module _ (t : Target) (c : KeDebugContext) (granted : Granting t.heap) where
  read_memory_lem :
      (a : Ask) (q : KeDebugRequest) (r : KeDebugResponse) (incoming out : List ℕ) (n : ℕ)
      (freed : List ℕ)
      → CanRead t c a
      → read_memory t a.address a.size (standing c q r) (line incoming out n freed) ≡ (
        ok (
          false,
          standing c q (
              outcome Answer.success a.size
                (t.heap n a.size)
                (bytes_at (t.memory c.cr3) a.address a.size)
                r),
        ),
        line incoming out (n + 1) freed,
      )
  unfolding read_memory heap_alloc
  read_memory_lem a q r incoming out n freed can =
      rw (granted n a.size can.real (omega (arith, can.fits))) refl

  read_mapped_lem :
      (a : Ask) (q : KeDebugRequest) (r : KeDebugResponse) (incoming out : List ℕ) (n : ℕ)
      (freed : List ℕ)
      → CanRead t c a
      → read_mapped t a.size a.address (standing c q r) (line incoming out n freed) ≡ (
        ok (
          false,
          standing c q (
              outcome Answer.success a.size
                (t.heap n a.size)
                (bytes_at (t.memory c.cr3) a.address a.size)
                r),
        ),
        line incoming out (n + 1) freed,
      )
  unfolding read_mapped
  read_mapped_lem a q r incoming out n freed can =
      rw can.starts (rw can.ends (read_memory_lem a q r incoming out n freed can))

  memory_command_lem :
      (a : Ask) (b : ℕ) (r : KeDebugResponse) (incoming out : List ℕ) (n : ℕ) (freed : List ℕ)
      → CanRead t c a
      → memory_command t (standing c (asking b a) r) (line incoming out n freed) ≡ (
        ok (
          false,
          standing c (asking b a) (
              outcome Answer.success a.size
                (t.heap n a.size)
                (bytes_at (t.memory c.cr3) a.address a.size)
                (answering Command.memory c r)),
        ),
        line incoming out (n + 1) freed,
      )
  unfolding memory_command param_word
  memory_command_lem a b r incoming out n freed can =
      let s = standing c (asking b a) (answering Command.memory c r) in
      let size : param_word t (asking b a) 0 ≡ a.size =
        word_in_first t.behind a.size (word_bytes a.address ++ []) (omega (arith, can.fits)) in
      let address : param_word t (asking b a) 4 ≡ a.address =
        word_in_second t.behind a.size a.address [] (omega (arith, can.in_space, can.real)) in
      ap (λ k. read_mapped t k (param_word t (asking b a) 4) s (line incoming out n freed)) size
      ∙ ap (λ k. read_mapped t a.size k s (line incoming out n freed)) address
      ∙ read_mapped_lem a (asking b a) (answering Command.memory c r) incoming out n freed can

  dispatch_memory :
      (a : Ask) (frames b : ℕ) (r : KeDebugResponse) (incoming out : List ℕ) (n : ℕ)
      (freed : List ℕ)
      → CanRead t c a
      → dispatch t frames (standing c (asking b a) r) (line incoming out n freed) ≡ (
        ok (
          false,
          standing c (asking b a) (
              outcome Answer.success a.size
                (t.heap n a.size)
                (bytes_at (t.memory c.cr3) a.address a.size)
                (answering Command.memory c r)),
        ),
        line incoming out (n + 1) freed,
      )
  unfolding dispatch
  dispatch_memory a frames b r incoming out n freed can =
      memory_command_lem a b r incoming out n freed can

  logged_ok :
      (m : M (Unit {0})) (l : Line) {l' : Line} → m l ≡ (ok tt, l') → logged t m l ≡ (ok tt, l')
  unfolding logged
  logged_ok m l e =
      ap
        (λ (r : Run (Unit {0}) × Line). elim r.0 [
          | ok u ↦ (ok tt, r.1)
          | err e ↦ (ok tt, r.1)
          | fault ↦ (fault, r.1)
          | running ↦ (running, r.1)
        ])
        e

  cleanup_lem :
      (a n : ℕ) (incoming out freed : List ℕ)
      → (a == null) ≡ false
      → cleanup t a (line incoming out n freed) ≡ (ok tt, line incoming out n (a ∷ freed))
  unfolding cleanup heap_free
  cleanup_lem a n incoming out freed held = rw held refl

  -- A round that has data to answer sends it, and frees the parameters and the data.
  finish_lem :
      (s : Session) (incoming out : List ℕ) (n : ℕ) (freed : List ℕ)
      → (s.request.param == null) ≡ false
      → (s.response.block == null) ≡ false
      → length s.response.block_bytes ≡ s.response.data_size
      → length s.response.process_name ≡ 512
      → header_size + s.response.data_size < 2 ^ 31
      → finish t false s (line incoming out n freed) ≡ (
        ok (false, s),
        line incoming
            (out ++ response_packet s.response)
            (n + 1)
            (s.response.block ∷ s.request.param ∷ freed),
      )
  unfolding finish send
  finish_lem s incoming out n freed param block whole named fits =
      let out' = out ++ response_packet s.response in
      bind_ok (logged t (send t s.response))
        (λ u. cleanup t s.request.param >> (cleanup t s.response.block >> give (false, s)))
        (line incoming out n freed)
        (logged_ok (send t s.response) (line incoming out n freed) (
          send_response_lem t.heap t.behind s.response incoming out n freed block whole named
            (omega arith) (granted n (header_size + s.response.data_size) (omega arith) fits)))
      ∙ bind_ok (cleanup t s.request.param) (λ u. cleanup t s.response.block >> give (false, s))
          (line incoming out' (n + 1) freed)
          (cleanup_lem s.request.param (n + 1) incoming out' freed param)
      ∙ bind_ok (cleanup t s.response.block) (λ u. give (false, s))
          (line incoming out' (n + 1) (s.request.param ∷ freed))
          (cleanup_lem s.response.block (n + 1) incoming out' (s.request.param ∷ freed) block)

  module _ (name : List ℕ) (named : t.process_name ≡ some name) (full : length name ≡ 512) where
    updated : (r : KeDebugResponse) → update_process_info t r ≡ record r { process_name = name }
    unfolding update_process_info
    updated r = rw named refl

    -- A round of WaitForPacket that reads memory, behind RecvRequest.
    pub serve_memory :
        (a : Ask) (frames b : ℕ) (r : KeDebugResponse) (incoming out : List ℕ) (n : ℕ)
        (freed : List ℕ)
        → CanRead t c a
        → (b == null) ≡ false
        → serve t frames (standing c (asking b a) r) (line incoming out n freed) ≡ (
          ok (false, standing c (asking b a) (told t c name (t.heap n a.size) a)),
          line incoming
              (out ++ response_packet (told t c name (t.heap n a.size) a))
              (n + 1 + 1)
              (t.heap n a.size ∷ b ∷ freed),
        )
    unfolding serve conclude
    serve_memory a frames b r incoming out n freed can held =
        let q = asking b a in
        let r' =
          outcome Answer.success a.size (t.heap n a.size)
            (bytes_at (t.memory c.cr3) a.address a.size) (answering Command.memory c r) in
        bind_ok (dispatch t frames (standing c q r)) (conclude t) (line incoming out n freed)
          (dispatch_memory a frames b r incoming out n freed can)
        ∙ ap (λ x. finish t false (standing c q x) (line incoming out (n + 1) freed)) (updated r')
        ∙ finish_lem (standing c q (told t c name (t.heap n a.size) a)) incoming out (n + 1) freed
            held (granted n a.size can.real (omega (arith, can.fits)))
            (length-bytes_at (t.memory c.cr3) a.address a.size) full can.fits

    -- The last round: the client lets the task go on.
    pub serve_continue :
        (frames : ℕ) (r : KeDebugResponse) (incoming out : List ℕ) (n : ℕ) (freed : List ℕ)
        → (s' : Session) × (serve t frames (standing c plain_continue r) (line incoming out n freed)
            ≡ (ok (true, s'), line incoming out n freed))
          × (s'.context ≡ record c { eflags = clear_trap_flag c.eflags })
    unfolding serve dispatch conclude update_process_info finish
    serve_continue frames r incoming out n freed =
        let c' = record c { eflags = clear_trap_flag c.eflags } in
        (
          record {
            request = plain_continue;
            response = record (outcome Answer.success 0 null [] (answering Command.continue c' r)) {
              process_name = name;
            };
            context = c';
          },
          rw named refl,
          refl,
        )

    receive_memory :
        (a : Ask) (q : KeDebugRequest) (r : KeDebugResponse) (rest out : List ℕ) (n : ℕ)
        (freed : List ℕ)
        → receive t
            (standing c q r)
            (line (request_packet Command.memory (ask_params a) ++ rest) out n freed)
          ≡ (
            ok (standing c (asking (t.heap (n + 1) 8) a) r),
            line rest out (n + 1 + 1) (t.heap n 16 ∷ freed),
          )
    unfolding receive word_bytes
    receive_memory a q r rest out n freed =
        bind_ok (recv_request t.heap t.behind q)
          (λ q'. give (record (standing c q r) { request = q' }))
          (line (request_packet Command.memory (ask_params a) ++ rest) out n freed)
          (recv_request_sent t.heap t.behind q Command.memory (ask_params a) rest out n freed
            (omega arith) (omega arith) (omega arith) (granted n 16 (omega arith) (omega arith))
            (granted (n + 1) 8 (omega arith) (omega arith)))

    pub receive_continue :
        (q : KeDebugRequest) (r : KeDebugResponse) (rest out : List ℕ) (n : ℕ) (freed : List ℕ)
        → receive t (standing c q r) (line (request_packet Command.continue [] ++ rest) out n freed)
          ≡ (ok (standing c plain_continue r), line rest out (n + 1) (t.heap n 8 ∷ freed))
    unfolding receive
    receive_continue q r rest out n freed =
        bind_ok (recv_request t.heap t.behind q)
          (λ q'. give (record (standing c q r) { request = q' }))
          (line (request_packet Command.continue [] ++ rest) out n freed)
          (recv_request_plain t.heap t.behind q Command.continue rest out n freed (omega arith)
            (granted n 8 (omega arith) (omega arith)))

    -- Where the block of an answer lies does not show in its packet.
    pub same_packet :
        (b : ℕ) (a : Ask)
        → response_packet (told t c name b a) ≡ response_packet (told t c name 1 a)
    unfolding header_bytes
    same_packet b a = refl

    -- A whole round that reads memory.
    pub round_memory :
        (a : Ask) (frames : ℕ) (q : KeDebugRequest) (r : KeDebugResponse) (rest out : List ℕ)
        (n : ℕ) (freed : List ℕ)
        → CanRead t c a
        → (receive t (standing c q r) >>= serve t frames)
            (line (request_packet Command.memory (ask_params a) ++ rest) out n freed)
          ≡ (
            ok (
              false,
              standing c
                  (asking (t.heap (n + 1) 8) a)
                  (told t c name (t.heap (n + 1 + 1) a.size) a),
            ),
            line rest
                (out ++ response_packet (told t c name 1 a))
                (n + 1 + 1 + 1 + 1)
                (t.heap (n + 1 + 1) a.size ∷ t.heap (n + 1) 8 ∷ t.heap n 16 ∷ freed),
          )
    round_memory a frames q r rest out n freed can =
        let b = t.heap (n + 1 + 1) a.size in
        let freed' = b ∷ t.heap (n + 1) 8 ∷ t.heap n 16 ∷ freed in
        bind_ok (receive t (standing c q r)) (serve t frames)
          (line (request_packet Command.memory (ask_params a) ++ rest) out n freed)
          (receive_memory a q r rest out n freed)
        ∙ serve_memory a frames (t.heap (n + 1) 8) r rest out (n + 1 + 1) (t.heap n 16 ∷ freed) can
            (granted (n + 1) 8 (omega arith) (omega arith))
        ∙ ap
            (λ p. (
              ok (false, standing c (asking (t.heap (n + 1) 8) a) (told t c name b a)),
              line rest (out ++ p) (n + 1 + 1 + 1 + 1) freed',
            ))
            (same_packet b a)

-- ===== src/LtDbg/Repeats.antt =====
-- kernel/debug/LtDbg.cpp: an empty packet, for which RecvRequest leaves the request as it was.
use lt_micros.Base.{arith, ℕ, ◌+◌, ◌≡◌, refl, ap, ◌∙◌, some, List, ◌∷◌, ◌++◌, false, length}
use lt_micros.Base.LittleEndian.{word_bytes}
use lt_micros.Base.Status.{ok}
use lt_micros.LtDbgCom.{
  Granting, ◌>>=◌, give, KeDebugContext, KeDebugRequest, KeDebugResponse, recv_content, recv_packet,
  recv_request,
}
use lt_micros.LtDbgCom.Packets.{line, bind_ok, request_packet}
use lt_micros.LtDbgCom.Response.{response_packet}
use lt_micros.LtDbg.Command
use lt_micros.LtDbg.{Target, Session, serve, receive}
use lt_micros.LtDbg.Rounds.{
  Ask, ask_params, asking, CanRead, told, standing, round_memory, serve_memory, same_packet,
}

empty_received :
    (t : Target) (q : KeDebugRequest) (rest out : List ℕ) (n : ℕ) (freed : List ℕ)
    → recv_request t.heap t.behind q (line (word_bytes 0 ++ rest) out n freed)
      ≡ (ok q, line rest out n freed)
unfolding recv_request recv_packet recv_content word_bytes
empty_received t q rest out n freed = refl

module _ (t : Target) (c : KeDebugContext) (granted : Granting t.heap) (name : List ℕ)
    (named : t.process_name ≡ some name) (full : length name ≡ 512) where
  receive_empty :
      (s : Session) (rest out : List ℕ) (n : ℕ) (freed : List ℕ)
      → receive t s (line (word_bytes 0 ++ rest) out n freed) ≡ (ok s, line rest out n freed)
  unfolding receive
  receive_empty s rest out n freed =
      bind_ok (recv_request t.heap t.behind s.request) (λ q. give (record s { request = q }))
        (line (word_bytes 0 ++ rest) out n freed) (empty_received t s.request rest out n freed)

  -- Behind a request for memory that was served, for a range neither empty nor of 2 ^ 31 bytes or more,
  -- and given memory for every size that HeapAlloc takes, the round of an empty packet serves that
  -- request again: the answer goes out a second time, and the block of its parameters is freed a second time,
  -- though no block was allocated for parameters in between.
  pub empty_packet_repeats :
      (a : Ask) (frames : ℕ) (q : KeDebugRequest) (r : KeDebugResponse) (rest out : List ℕ) (n : ℕ)
      (freed : List ℕ)
      → CanRead t c a
      → let params = t.heap (n + 1) 8 in
        let answer = t.heap (n + 1 + 1) a.size in
        let again = t.heap (n + 1 + 1 + 1 + 1) a.size in
        (receive t (standing c q r) >>= serve t frames >>= λ first.
        receive t first.1 >>= serve t frames)
          (line
            (request_packet Command.memory (ask_params a) ++ (word_bytes 0 ++ rest))
            out
            n
            freed)
        ≡ (
          ok (false, standing c (asking params a) (told t c name again a)),
          line rest
              ((out ++ response_packet (told t c name 1 a)) ++ response_packet (told t c name 1 a))
              (n + 1 + 1 + 1 + 1 + 1 + 1)
              (again ∷ params ∷ answer ∷ params ∷ t.heap n 16 ∷ freed),
        )
  empty_packet_repeats a frames q r rest out n freed can =
      let params = t.heap (n + 1) 8 in
      let answer = t.heap (n + 1 + 1) a.size in
      let again = t.heap (n + 1 + 1 + 1 + 1) a.size in
      let s1 = standing c (asking params a) (told t c name answer a) in
      let freed1 = answer ∷ params ∷ t.heap n 16 ∷ freed in
      let out1 = out ++ response_packet (told t c name 1 a) in
      let n1 = n + 1 + 1 + 1 + 1 in
      bind_ok (receive t (standing c q r) >>= serve t frames)
        (λ first. receive t first.1 >>= serve t frames)
        (line (request_packet Command.memory (ask_params a) ++ (word_bytes 0 ++ rest)) out n freed)
        (round_memory t c granted name named full a frames q r (word_bytes 0 ++ rest) out n freed
          can)
      ∙ bind_ok (receive t s1) (serve t frames) (line (word_bytes 0 ++ rest) out1 n1 freed1)
          (receive_empty s1 rest out1 n1 freed1)
      ∙ serve_memory t c granted name named full a frames params (told t c name answer a) rest out1
          n1 freed1 can (granted (n + 1) 8 (omega arith) (omega arith))
      ∙ ap
          (λ p. (
            ok (false, standing c (asking params a) (told t c name again a)),
            line rest (out1 ++ p) (n1 + 1 + 1) (again ∷ params ∷ freed1),
          ))
          (same_packet t c granted name named full again a)

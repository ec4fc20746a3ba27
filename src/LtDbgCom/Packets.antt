-- ===== src/LtDbgCom/Packets.antt =====
-- kernel/debug/LtDbgCom.cpp: what RecvRequest takes from the line.
use lt_micros.Base.{
  ℕ, suc, ◌+◌, ◌^◌, ◌<◌, ◌≡◌, refl, ap, sym, ◌∙◌, List, [], ◌∷◌, ◌++◌, Bool, true, false, ◌&&◌,
  ◌||◌, if◌then◌else◌, ◌==◌, length, get_or, get_or_default, append_assoc, append_nil, arith,
}
use lt_micros.Base.Words.{null}
use lt_micros.Base.LittleEndian.{word_bytes, word_of-word_bytes}
use lt_micros.Base.Status.{Run, ok, err, fault, running}
use lt_micros.LtFsService.Bytes.{bytes_at}
use lt_micros.LtDbgCom.{
  Line, M, ◌>>=◌, give, KeDebugRequest, read_bytes, write_bytes, byte_in, word_in, recv_content,
  recv_packet, take_params, take_request, recv_request,
}

abbrev pub line : List ℕ → List ℕ → ℕ → List ℕ → Line
line incoming outgoing allocs freed = record {
  incoming = incoming;
  outgoing = outgoing;
  allocs = allocs;
  freed = freed;
}

abbrev after : {A B : Type 0} → (A → M B) → Run A × Line → Run B × Line
after f r = elim r.0 [
  | ok a ↦ f a r.1
  | err e ↦ (err e, r.1)
  | fault ↦ (fault, r.1)
  | running ↦ (running, r.1)
]

-- A step that returns, with what follows it.
pub bind_ok :
    {A B : Type 0} (m : M A) (f : A → M B) (s : Line) {a : A} {s' : Line}
    → m s ≡ (ok a, s')
    → (m >>= f) s ≡ f a s'
bind_ok {A} {B} m f s e = ap (λ (r : Run A × Line). after f r) e

read_bytes_lem :
    (xs rest out : List ℕ) (n : ℕ) (freed : List ℕ)
    → read_bytes (length xs) (line (xs ++ rest) out n freed) ≡ (ok xs, line rest out n freed)
unfolding read_bytes
read_bytes_lem [] rest out n freed = refl
read_bytes_lem (x ∷ xs) rest out n freed =
    bind_ok (read_bytes (length xs)) (λ bs. give (x ∷ bs)) (line (xs ++ rest) out n freed)
      (read_bytes_lem xs rest out n freed)

pub write_bytes_lem :
    (xs incoming out : List ℕ) (n : ℕ) (freed : List ℕ)
    → write_bytes xs (line incoming out n freed) ≡ (ok tt, line incoming (out ++ xs) n freed)
unfolding write_bytes
write_bytes_lem [] incoming out n freed =
    ap (λ o. (ok tt, line incoming o n freed)) (sym (append_nil out))
write_bytes_lem (x ∷ xs) incoming out n freed =
    write_bytes_lem xs incoming (out ++ x ∷ []) n freed
    ∙ ap (λ o. (ok tt, line incoming o n freed)) (append_assoc out (x ∷ []) xs)

neither :
    {A : Type 0} (a b : Bool) (m k : M A) (s : Line)
    → a ≡ false
    → b ≡ false
    → (if a || b then m else k) s ≡ k s
neither a b m k s p q = rw p (rw q refl)

pub not_both :
    {A : Type 0} (a b : Bool) (m k : M A) (s : Line) → b ≡ false → (if a && b then m else k) s ≡ k s
not_both true b m k s q = rw q refl
not_both false b m k s q = refl

-- What a client sends for a command with parameters.
abbrev pub request_packet : (command : ℕ) (params : List ℕ) → List ℕ
request_packet command params =
    word_bytes (8 + length params) ++ (word_bytes command ++ (word_bytes (length params) ++ params))

pub word_in_first :
    (behind : ℕ → ℕ) (w : ℕ) (bytes : List ℕ)
    → w < 2 ^ 32
    → word_in behind (word_bytes w ++ bytes) 0 ≡ w
unfolding word_in word_bytes
word_in_first behind w bytes h = word_of-word_bytes w h

pub word_in_second :
    (behind : ℕ → ℕ) (v w : ℕ) (bytes : List ℕ)
    → w < 2 ^ 32
    → word_in behind (word_bytes v ++ (word_bytes w ++ bytes)) 4 ≡ w
unfolding word_in word_bytes
word_in_second behind v w bytes h = word_of-word_bytes w h

-- Reading a whole list at an offset, behind what stands before it.
pub bytes_at-list :
    (byte : ℕ → ℕ) (xs : List ℕ) (i : ℕ)
    → ((k : ℕ) → k < length xs → byte (i + k) ≡ get_or xs k 0)
    → bytes_at byte i (length xs) ≡ xs
bytes_at-list byte [] i h = refl
bytes_at-list byte (x ∷ xs) i h =
    let first : byte i ≡ x = ap byte (omega arith) ∙ h 0 (omega arith) in
    rw first (
      ap (◌∷◌ x)
        (bytes_at-list byte xs (i + 1) (λ k lt. ap byte (omega arith) ∙ h (suc k) (omega arith))))

-- The parameters of a request, from the bytes of its packet.
params_read :
    (behind : ℕ → ℕ) (command : ℕ) (params : List ℕ)
    → bytes_at
        (byte_in behind (word_bytes command ++ (word_bytes (length params) ++ params)))
        8
        (length params)
      ≡ params
unfolding word_bytes
params_read behind command params = bytes_at-list _ params 8 (λ k lt.
    let eight : 8 + k ≡ suc (suc (suc (suc (suc (suc (suc (suc k))))))) = omega arith in
    rw eight (get_or_default params k _ 0 lt))

module _ (heap : (call size : ℕ) → ℕ) (behind : ℕ → ℕ) where
  recv_content_lem :
      (size : ℕ) (bytes rest out : List ℕ) (n : ℕ) (freed : List ℕ)
      → size ≡ length bytes
      → (size == 0) ≡ false
      → (heap n size == null) ≡ false
      → recv_content heap behind size (line (bytes ++ rest) out n freed) ≡ (
        ok (record { size = size; content = heap n size; bytes = bytes }),
        line rest out (n + 1) freed,
      )
  unfolding recv_content
  recv_content_lem size bytes rest out n freed e some_bytes granted = rw some_bytes (
      rw granted (
        bind_ok (read_bytes size)
          (λ bs. give (record { size = size; content = heap n size; bytes = bs }))
          (line (bytes ++ rest) out (n + 1) freed)
          (ap (λ k. read_bytes k (line (bytes ++ rest) out (n + 1) freed)) e
            ∙ read_bytes_lem bytes rest out (n + 1) freed)))

  recv_packet_sized :
      (size : ℕ) (more out : List ℕ) (n : ℕ) (freed : List ℕ)
      → size < 2 ^ 32
      → recv_packet heap behind (line (word_bytes size ++ more) out n freed)
        ≡ recv_content heap behind size (line more out n freed)
  unfolding recv_packet word_bytes
  recv_packet_sized size more out n freed fits =
      bind_ok (read_bytes 4) (λ head. recv_content heap behind (word_in behind head 0))
        (line (word_bytes size ++ more) out n freed)
        (read_bytes_lem (word_bytes size) more out n freed)
      ∙ ap (λ k. recv_content heap behind k (line more out n freed))
          (word_in_first behind size [] fits)

  abbrev pub request_of : (call command : ℕ) (params : List ℕ) → KeDebugRequest
  request_of call command params = record {
    command = command;
    param_size = length params;
    param = heap call (length params);
    param_bytes = params;
  }

  take_params_lem :
      (command content : ℕ) (params rest out : List ℕ) (n : ℕ) (freed : List ℕ)
      → (length params == 0) ≡ false
      → (content == null) ≡ false
      → (heap n (length params) == null) ≡ false
      → take_params heap behind command
          (length params)
          (record {
            size = 8 + length params;
            content = content;
            bytes = word_bytes command ++ (word_bytes (length params) ++ params);
          })
          (line rest out n freed)
        ≡ (ok (request_of n command params), line rest out (n + 1) (content ∷ freed))
  unfolding take_params
  take_params_lem command content params rest out n freed more first second = rw more (
      rw second (
        rw first (
          ap
            (λ bs. (
              ok (record {
                command = command;
                param_size = length params;
                param = heap n (length params);
                param_bytes = bs;
              }),
              line rest out (n + 1) (content ∷ freed),
            ))
            (params_read behind command params))))

  take_request_lem :
      (command content : ℕ) (params rest out : List ℕ) (n : ℕ) (freed : List ℕ)
      → command < 2 ^ 32
      → length params < 2 ^ 32
      → (length params == 0) ≡ false
      → (content == null) ≡ false
      → (heap n (length params) == null) ≡ false
      → take_request heap behind
          (record {
            size = 8 + length params;
            content = content;
            bytes = word_bytes command ++ (word_bytes (length params) ++ params);
          })
          (line rest out n freed)
        ≡ (ok (request_of n command params), line rest out (n + 1) (content ∷ freed))
  unfolding take_request
  take_request_lem command content params rest out n freed small fits more first second =
      rw
        (
          word_in_first behind command (word_bytes (length params) ++ params) small,
          word_in_second behind command (length params) params fits,
        )
        (take_params_lem command content params rest out n freed more first second)

  body_length :
      (command : ℕ) (params : List ℕ)
      → 8 + length params ≡ length (word_bytes command ++ (word_bytes (length params) ++ params))
  unfolding word_bytes
  body_length command params = omega arith

  opened :
      (command : ℕ) (params rest out : List ℕ) (n : ℕ) (freed : List ℕ)
      → 8 + length params < 2 ^ 32
      → recv_packet heap behind (line (request_packet command params ++ rest) out n freed)
        ≡ recv_content heap behind (8 + length params) (
            line
              ((word_bytes command ++ (word_bytes (length params) ++ params)) ++ rest)
              out
              n
              freed)
  unfolding word_bytes
  opened command params rest out n freed fits =
      recv_packet_sized (8 + length params)
        ((word_bytes command ++ (word_bytes (length params) ++ params)) ++ rest) out n freed fits

  -- RecvRequest takes exactly one packet from the line. Given memory, it is the request that the
  -- client sent, in a block of its own; the block of the packet is freed.
  pub recv_request_sent :
      (old : KeDebugRequest) (command : ℕ) (params rest out : List ℕ) (n : ℕ) (freed : List ℕ)
      → command < 2 ^ 32
      → 8 + length params < 2 ^ 32
      → 0 < length params
      → (heap n (8 + length params) == null) ≡ false
      → (heap (n + 1) (length params) == null) ≡ false
      → recv_request heap behind old (line (request_packet command params ++ rest) out n freed) ≡ (
        ok (request_of (n + 1) command params),
        line rest out (n + 1 + 1) (heap n (8 + length params) ∷ freed),
      )
  unfolding recv_request
  recv_request_sent old command params rest out n freed small fits more first second =
      let size = 8 + length params in
      let body = word_bytes command ++ (word_bytes (length params) ++ params) in
      let sized : (size == 0) ≡ false = ground arith in
      let some_params : (length params == 0) ≡ false = ground arith in
      bind_ok (recv_packet heap behind)
        (λ p. if p.size == 0 || p.content == null then give old else take_request heap behind p)
        (line (request_packet command params ++ rest) out n freed)
        (opened command params rest out n freed fits
          ∙ recv_content_lem size body rest out n freed (body_length command params) sized first)
      ∙ neither (size == 0) (heap n size == null) (give old)
          (take_request heap behind (record { size = size; content = heap n size; bytes = body }))
          (line rest out (n + 1) freed) sized first
      ∙ take_request_lem command (heap n size) params rest out (n + 1) freed small (omega arith)
          some_params first second

module _ (heap : (call size : ℕ) → ℕ) (behind : ℕ → ℕ) where
  take_plain :
      (command content : ℕ) (rest out : List ℕ) (n : ℕ) (freed : List ℕ)
      → command < 2 ^ 32
      → (content == null) ≡ false
      → take_request heap behind
          (record {
            size = 8;
            content = content;
            bytes = word_bytes command ++ (word_bytes 0 ++ []);
          })
          (line rest out n freed)
        ≡ (
          ok (record { command = command; param_size = 0; param = null; param_bytes = [] }),
          line rest out n (content ∷ freed),
        )
  unfolding take_request take_params
  take_plain command content rest out n freed small held =
      rw
        (
          word_in_first behind command (word_bytes 0 ++ []) small,
          word_in_second behind command 0 [] (omega arith),
          held,
        )
        refl

  -- RecvRequest of a request without parameters.
  pub recv_request_plain :
      (old : KeDebugRequest) (command : ℕ) (rest out : List ℕ) (n : ℕ) (freed : List ℕ)
      → command < 2 ^ 32
      → (heap n 8 == null) ≡ false
      → recv_request heap behind old (line (request_packet command [] ++ rest) out n freed) ≡ (
        ok (record { command = command; param_size = 0; param = null; param_bytes = [] }),
        line rest out (n + 1) (heap n 8 ∷ freed),
      )
  unfolding recv_request
  recv_request_plain old command rest out n freed small first =
      let body = word_bytes command ++ (word_bytes 0 ++ []) in
      bind_ok (recv_packet heap behind)
        (λ p. if p.size == 0 || p.content == null then give old else take_request heap behind p)
        (line (request_packet command [] ++ rest) out n freed)
        (opened heap behind command [] rest out n freed (omega arith)
          ∙ recv_content_lem heap behind 8 body rest out n freed
              (body_length heap behind command []) refl first)
      ∙ neither (8 == 0) (heap n 8 == null) (give old)
          (take_request heap behind (record { size = 8; content = heap n 8; bytes = body }))
          (line rest out (n + 1) freed) refl first
      ∙ take_plain command (heap n 8) rest out (n + 1) freed small first

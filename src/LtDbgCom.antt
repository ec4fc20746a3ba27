-- ===== src/LtDbgCom.antt =====
-- kernel/debug/LtDbgCom.cpp with the types of kernel/debug/Common.hpp: packets on the serial line
-- between the kernel's debugger and its client. The line is the bytes that the client sends and those
-- that it gets: SerialDriver::ReadByte (kernel/drivers/Serial.cpp) waits for the first of the former.
-- An allocation is what HeapAlloc answers at its number, which the state counts; what it frees is
-- recorded. A block is its address and the bytes written to it; behind these lies what the memory
-- happens to hold.
pub mod Packets
pub mod Response
use lt_micros.Base.{
  ℕ, zero, suc, ◌+◌, ◌-◌, ◌*◌, ◌/◌, ◌%◌, ◌^◌, ◌<◌, ◌≡◌, List, [], ◌∷◌, ◌++◌, Bool, true, false, not,
  ◌&&◌, ◌||◌, if◌then◌else◌, ◌==◌, ltb, length, get_or, take,
}
use lt_micros.Base.Words.{null, add32}
use lt_micros.Base.LittleEndian.{word_bytes, word_of}
use lt_micros.Base.Status.{KeStatus, alloc_failed, invalid_parameter, Run, ok, err, fault, running}
use lt_micros.LtFsService.Bytes.{bytes_at}

-- COM2, how many calls of HeapAlloc were made, and the blocks freed, newest first.
pub record Line : Type 0 where
  pub incoming : List ℕ
  pub outgoing : List ℕ
  pub allocs : ℕ
  pub freed : List ℕ

-- A call on the line: what it answers, and the line afterwards.
abbrev pub M : Type 0 → Type 0
M A = Line → Run A × Line

infixl 5 ◌>>=◌ ◌>>◌
abbrev pub ◌>>=◌ : {A B : Type 0} → M A → (A → M B) → M B
◌>>=◌ m f s = elim (m s).0 [
  | ok a ↦ f a (m s).1
  | err e ↦ (err e, (m s).1)
  | fault ↦ (fault, (m s).1)
  | running ↦ (running, (m s).1)
]

abbrev pub ◌>>◌ : {B : Type 0} → M (Unit {0}) → M B → M B
m >> k = m >>= λ _. k

abbrev pub give : {A : Type 0} → A → M A
give a s = (ok a, s)

abbrev pub fail : {A : Type 0} → KeStatus → M A
fail e s = (err e, s)

abbrev pub crash : {A : Type 0} → M A
crash s = (fault, s)

abbrev pub spin : {A : Type 0} → M A
spin s = (running, s)

-- KeDebugContext; `padding` is the two bytes behind `cs` that no member covers.
pub record KeDebugContext : Type 0 where
  pub cr3 : ℕ
  pub cr2 : ℕ
  pub cr0 : ℕ
  pub gs : ℕ
  pub fs : ℕ
  pub es : ℕ
  pub ds : ℕ
  pub ss : ℕ
  pub edi : ℕ
  pub esi : ℕ
  pub ebp : ℕ
  pub esp : ℕ
  pub ebx : ℕ
  pub edx : ℕ
  pub ecx : ℕ
  pub eax : ℕ
  pub eip : ℕ
  pub cs : ℕ
  pub padding : ℕ
  pub eflags : ℕ

pub record Packet : Type 0 where
  pub size : ℕ
  pub content : ℕ
  pub bytes : List ℕ

pub record KeDebugRequest : Type 0 where
  pub command : ℕ
  pub param_size : ℕ
  pub param : ℕ
  pub param_bytes : List ℕ

pub record KeDebugResponse : Type 0 where
  pub command : ℕ
  pub status : ℕ
  pub context : KeDebugContext
  pub process_name : List ℕ
  pub data_size : ℕ
  pub block : ℕ
  pub block_bytes : List ℕ

-- sizeof(KeDebugResponseHeader)
abbrev pub header_size : ℕ
header_size = 600

unfoldable pub context_bytes : KeDebugContext → List ℕ
unfolding word_bytes
context_bytes c =
    word_bytes c.cr3
    ++ (word_bytes c.cr2
        ++ (word_bytes c.cr0
            ++ (word_bytes c.gs
                ++ (word_bytes c.fs
                    ++ (word_bytes c.es
                        ++ (word_bytes c.ds
                            ++ (word_bytes c.ss
                                ++ (word_bytes c.edi
                                    ++ (word_bytes c.esi
                                        ++ (word_bytes c.ebp
                                            ++ (word_bytes c.esp
                                                ++ (word_bytes c.ebx
                                                    ++ (word_bytes c.edx
                                                        ++ (word_bytes c.ecx
                                                            ++ (word_bytes c.eax
                                                            ++ (word_bytes c.eip
                                                            ++ ((c.cs % 256)
                                                            ∷ (c.cs / 256 % 256)
                                                            ∷ (c.padding % 256)
                                                            ∷ (c.padding / 256 % 256)
                                                            ∷ word_bytes c.eflags)))))))))))))))))

-- The bytes of a KeDebugResponseHeader.
unfoldable pub header_bytes : KeDebugResponse → List ℕ
unfolding context_bytes word_bytes
header_bytes r =
    word_bytes r.command
    ++ (word_bytes r.status
        ++ (context_bytes r.context ++ (r.process_name ++ word_bytes r.data_size)))

-- LtDbgCom::ReadByte
unfoldable pub read_byte : M ℕ
read_byte s = elim s.incoming [ [] ↦ (running, s) | b ∷ bs ↦ (ok b, record s { incoming = bs }) ]

-- LtDbgCom::ReadBytes into a buffer that is not null
unfoldable pub read_bytes : ℕ → M (List ℕ)
unfolding read_byte
read_bytes zero = give []
read_bytes (suc n) = read_byte >>= λ b. read_bytes n >>= λ bs. give (b ∷ bs)

-- LtDbgCom::WriteByte
unfoldable pub write_byte : ℕ → M (Unit {0})
write_byte b s = (ok tt, record s { outgoing = s.outgoing ++ b ∷ [] })

-- LtDbgCom::WriteBytes
unfoldable pub write_bytes : List ℕ → M (Unit {0})
unfolding write_byte
write_bytes [] = give tt
write_bytes (b ∷ bs) = write_byte b >> write_bytes bs

-- HeapFree
unfoldable pub heap_free : ℕ → M (Unit {0})
heap_free a s = (ok tt, record s { freed = a ∷ s.freed })

-- The word and the bytes at an offset of a block.
abbrev pub byte_in : (ℕ → ℕ) → List ℕ → ℕ → ℕ
byte_in behind bytes i = get_or bytes i (behind i)

unfoldable pub word_in : (ℕ → ℕ) → List ℕ → ℕ → ℕ
unfolding word_of
word_in behind bytes i =
    word_of (byte_in behind bytes i) (byte_in behind bytes (i + 1)) (byte_in behind bytes (i + 2))
      (byte_in behind bytes (i + 3))

-- LtDbgCom::SendPacket; the packet has a content.
unfoldable pub send_packet : Packet → M (Unit {0})
unfolding write_bytes word_bytes
send_packet p =
    if p.size == 0
    then fail invalid_parameter
    else write_bytes (word_bytes p.size) >> write_bytes p.bytes

-- LtDbgCom::CleanupPacket
unfoldable pub cleanup_packet : Packet → M (Unit {0})
unfolding heap_free
cleanup_packet p = if p.content == null then give tt else heap_free p.content

-- Memory is granted for every size that HeapAlloc takes.
abbrev pub Granting : ((call size : ℕ) → ℕ) → Type 0
Granting heap = (call size : ℕ) → 0 < size → size < 2 ^ 31 → (heap call size == null) ≡ false

module _ (heap : (call size : ℕ) → ℕ) (behind : ℕ → ℕ) where
  -- HeapAlloc
  unfoldable pub heap_alloc : ℕ → M ℕ
  heap_alloc size s = (ok (heap s.allocs size), record s { allocs = s.allocs + 1 })

  -- RecvPacket behind the size.
  unfoldable pub recv_content : ℕ → M Packet
  unfolding read_bytes heap_alloc
  recv_content size =
      if size == 0
      then give (record { size = 0; content = null; bytes = [] })
      else heap_alloc size >>= λ a.
          if a == null
          then fail alloc_failed
          else read_bytes size >>= λ bs. give (record { size = size; content = a; bytes = bs })

  -- LtDbgCom::RecvPacket, for a packet that is zero
  unfoldable pub recv_packet : M Packet
  unfolding read_bytes recv_content word_in
  recv_packet = read_bytes 4 >>= λ head. recv_content (word_in behind head 0)

  -- RecvRequest with the two words of the packet: the rest of it is copied, of which there need not be
  -- as much as paramSize says.
  unfoldable pub take_params : (command param_size : ℕ) → Packet → M KeDebugRequest
  unfolding heap_alloc cleanup_packet
  take_params command param_size p =
      if param_size == 0
      then cleanup_packet p
        >> give (record { command = command; param_size = 0; param = null; param_bytes = [] })
      else heap_alloc param_size >>= λ a.
          if a == null
          then fail alloc_failed
          else cleanup_packet p
            >> give (record {
              command = command;
              param_size = param_size;
              param = a;
              param_bytes = bytes_at (byte_in behind p.bytes) 8 param_size;
            })

  -- RecvRequest behind RecvPacket.
  unfoldable pub take_request : Packet → M KeDebugRequest
  unfolding take_params word_in
  take_request p = take_params (word_in behind p.bytes 0) (word_in behind p.bytes 4) p

  -- LtDbgCom::RecvRequest; `old` is what the caller's request holds.
  unfoldable pub recv_request : (old : KeDebugRequest) → M KeDebugRequest
  unfolding recv_packet take_request
  recv_request old =
      recv_packet >>= λ p. if p.size == 0 || p.content == null then give old else take_request p

  -- SendResponse behind its checks: a packet in a buffer, which is not freed.
  unfoldable pub send_buffer : (size : ℕ) (bytes : List ℕ) → M (Unit {0})
  unfolding heap_alloc send_packet
  send_buffer size bytes = heap_alloc size >>= λ a.
      if a == null
      then fail alloc_failed
      else send_packet (record { size = size; content = a; bytes = bytes })

  -- LtDbgCom::SendResponse
  unfoldable pub send_response : KeDebugResponse → M (Unit {0})
  unfolding send_buffer header_bytes
  send_response r =
      let size = add32 header_size r.data_size in
      if not (r.data_size == 0) && r.block == null
      then fail invalid_parameter
      else send_buffer size
          (take size (header_bytes r ++ bytes_at (byte_in behind r.block_bytes) 0 r.data_size))

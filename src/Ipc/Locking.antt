-- ===== src/Ipc/Locking.antt =====
-- The locks of Send and the check of Receive.
use lt_micros.Base.{ℕ, ◌<◌, ◌≡◌, ◌≢◌, refl, inl, inr, some, List, arith, ◌==◌, length, Bool-cases}
use lt_micros.Base.Words.{null}
use lt_micros.Base.Status.{running}
use lt_micros.Ipc.{
  IpcObject, IpcHandler, find_by_handle, acquire, send_to, send_checked, send, receive,
}

send_to_word :
    (m : IpcHandler) (o : IpcObject) (process : ℕ) (message : List ℕ)
    → (send_to m o process message).1.low_word ≡ m.low_word
unfolding send_to
send_to_word m o process message = elim (Bool-cases (process == o.server_process)) [
  | inl h ↦ rw h refl
  | inr h ↦ rw h refl
]

send_word :
    (m : IpcHandler) (o : IpcObject) (handle process : ℕ) (message : List ℕ)
    → m.low_word ≡ 0
    → find_by_handle m handle ≡ some o
    → handle ≢ 0
    → process ≢ null
    → 0 < length message
    → (send m handle process (some message)).1.low_word ≡ 1
unfolding send send_checked acquire
send_word m o handle process message free found rh rp some_bytes =
    ground (arith, send_to_word (record m { low_word = 1 }) o process message)

send_spins :
    (m : IpcHandler) (handle process : ℕ) (message : List ℕ)
    → m.low_word ≡ 1
    → handle ≢ 0
    → process ≢ null
    → 0 < length message
    → send m handle process (some message) ≡ (running, m)
unfolding send send_checked acquire
send_spins m handle process message taken rh rp some_bytes = ground arith

-- Send takes the lock at address 0 and releases that of the object: after a Send that finds its
-- object while that word is 0, delivered or denied, every further Send with valid arguments spins.
pub send_hangs :
    (m : IpcHandler) (o : IpcObject) (handle process : ℕ) (message : List ℕ)
    → m.low_word ≡ 0
    → find_by_handle m handle ≡ some o
    → handle ≢ 0
    → process ≢ null
    → 0 < length message
    → (handle' process' : ℕ) (message' : List ℕ) → handle' ≢ 0
    → process' ≢ null
    → 0 < length message'
    → (send (send m handle process (some message)).1 handle' process' (some message')).0 ≡ running
send_hangs m o handle process message free found rh rp l handle' process' message' rh' rp' l' =
    ground (
      arith,
      send_spins (send m handle process (some message)).1 handle' process' message'
          (send_word m o handle process message free found rh rp l) rh' rp' l',
    )

-- Receive does for every process, given by a pointer that is not null, what it does for the server.
pub receive_any :
    (m : IpcHandler) (handle size server other : ℕ)
    → server ≢ null
    → other ≢ null
    → receive m handle other size ≡ receive m handle server size
unfolding receive
receive_any m handle size server other rs ro = ground arith

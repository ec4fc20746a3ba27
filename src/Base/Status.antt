-- ===== src/Base/Status.antt =====
-- kernel/lib/Status.hpp, and the outcome of a kernel function.

use mathlib.Core.Bool.{Bool, true, false}

pub data KeStatus : Type 0 where
  success failure not_found invalid_parameter null_parameter invalid_handle alloc_failed : KeStatus
  invalid_virtual_user_address physical_memory_full process_heap_limit_reached : KeStatus
  id_string_already_used server_not_found access_denied handle_already_exist : KeStatus
  list_stop_iterating unexpected : KeStatus

-- FAILED(status)
abbrev pub failed : KeStatus → Bool
failed success = false
failed _ = true

-- How a call ends: it returns a value, it returns an error code, the processor would take a fault
-- or the kernel panics, or it has not ended: its fuel is spent, it spins on a lock, or it waits.
pub data Run {ℓ} (A : Type ℓ) : Type ℓ where
  ok : A → Run A
  err : KeStatus → Run A
  fault : Run A
  running : Run A

infixl 5 ◌>>=◌ ◌>>◌
abbrev pub ◌>>=◌ {ℓ κ} : {A : Type ℓ} {B : Type κ} → Run A → (A → Run B) → Run B
ok a >>= f = f a
err e >>= f = err e
fault >>= f = fault
running >>= f = running

abbrev pub ◌>>◌ {ℓ} : {B : Type ℓ} → Run (Unit {0}) → Run B → Run B
m >> k = m >>= λ _. k

-- `if (b) return e;`
abbrev pub reject : Bool → KeStatus → Run (Unit {0})
reject true e = err e
reject false e = ok tt

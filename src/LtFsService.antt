-- ===== src/LtFsService.antt =====
-- userland/system/LtFsService: the file system service. How its functions end, and the statuses of
-- userland/StdLib/inc/status.h.
pub mod Bytes
pub mod AtaDriver
pub mod Ext2
pub mod File
pub mod ServiceCommands
use lt_micros.Base.{Bool}

pub data Status : Type 0 where
  success failure null_parameter invalid_parameter alloc_failed file_not_found : Status
  not_a_directory unexpected path_too_long list_stop_iterating access_denied : Status

-- A function answers a value or a status that is a failure, or it would fault: it follows a null
-- pointer, reads beyond a table, or divides by 0, or it has not ended: it waits for the drive.
pub data Answer {ℓ} (A : Type ℓ) : Type ℓ where
  ok : A → Answer A
  err : Status → Answer A
  fault : Answer A
  running : Answer A

infixl 5 ◌>>=◌
abbrev pub ◌>>=◌ {ℓ κ} : {A : Type ℓ} {B : Type κ} → Answer A → (A → Answer B) → Answer B
ok a >>= f = f a
err e >>= f = err e
fault >>= f = fault
running >>= f = running

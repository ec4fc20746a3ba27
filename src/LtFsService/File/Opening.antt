-- ===== src/LtFsService/File/Opening.antt =====
-- OpenFile over an ext2 disk: what the content of a file is then.
use lt_micros.Base.{ℕ, List, true, get_or}
use lt_micros.LtFsService.{ok, ◌>>=◌}
use lt_micros.LtFsService.Ext2.{Reader, Ext2Disk, FileMemory}
use lt_micros.LtFsService.Ext2
use lt_micros.LtFsService.File.{Volume}

-- A disk as the service reads it. `rest` is what the memory of a file holds where Ext2ReadFile has not
-- written.
abbrev pub volume_of : Reader → Ext2Disk → FileMemory → (rest : ℕ → ℕ) → Volume
volume_of ata_read disk memory rest = record {
  read_inode = λ num. Ext2.read_inode ata_read disk num true memory.bytes;
  read_file = λ inode. Ext2.read_file ata_read disk memory inode >>= λ bytes.
      ok (λ (i : ℕ). get_or bytes i (rest i));
}

-- The memory granted for a file.
abbrev pub granted : List ℕ → FileMemory
granted bytes = record {
  for_content = true;
  for_block = true;
  for_singly = true;
  for_doubly = true;
  bytes = bytes;
}

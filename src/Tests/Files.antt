-- ===== src/Tests/Files.antt =====
-- Files of the file system service at concrete inputs.
use lt_micros.Base.{ℕ, zero, suc, ◌%◌, ◌==◌, if◌then◌else◌, some, List, [], ◌∷◌, true}
use lt_micros.LtFsService.{err, failure}
use lt_micros.LtFsService.Bytes.{bytes_at}
use lt_micros.LtFsService.Ext2.{Reader, Ext2Disk, Ext2Inode}
use lt_micros.LtFsService.File.{Volume, File, Cache}

-- Two blocks of eight bytes, of which twelve bytes are the file.
abbrev inode : Ext2Inode
inode = record {
  mode = 0x8000;
  size = 12;
  block = λ i. elim i [ zero ↦ 3 | suc j ↦ elim j [ zero ↦ 4 | suc k ↦ 0 ] ];
}

abbrev file : ℕ → (leaf next : ℕ) → List ℕ → File
file inum leaf next name = record {
  inum = inum;
  inode = some inode;
  name = some name;
  content = λ i. 0;
  opened = true;
  leaf = leaf;
  parent = 0x100;
  next = next;
}

-- The root at 0x100, with the children "b" at 0x200 and "a" at 0x300.
abbrev files : ℕ → File
files address =
    if address == 0x100
    then file 2 0x200 0 (47 ∷ [])
    else if address == 0x200
    then file 12 0 0x300 (98 ∷ [])
    else file 11 0 0 (97 ∷ [])

abbrev cache : Cache
cache = record { files = files; root_file = 0x100; supply = [] }

abbrev no_disk : Volume
no_disk = record { read_inode = λ num. err failure; read_file = λ i. err failure }

abbrev counting : ℕ → ℕ
counting place = place % 251

-- A reader of that disk.
abbrev reader : Reader
reader offset size buffer = some (bytes_at counting offset size)

abbrev disk : Ext2Disk
disk = record {
  super_block = record {
    inodes_count = 16;
    blocks_count = 64;
    log_block_size = 0;
    blocks_per_group = 64;
    inodes_per_group = 16;
    inode_size = 128;
  };
  block_size = 8;
  groups = 1;
  group_dec = 5 ∷ [];
}

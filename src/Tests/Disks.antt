-- ===== src/Tests/Disks.antt =====
-- The disk of the file system service at concrete inputs.
use mathlib.Core.Option.{some-injective}
use mathlib.Core.Path.{subst}
use lt_micros.Base.{
  ℕ, ◌+◌, ◌-◌, ◌*◌, ◌/◌, ◌%◌, ◌<◌, ◌≡◌, refl, none, some, [], true, false, arith, get_elem?,
  if◌then◌else◌, ◌==◌, leb, ◌&&◌,
}
use lt_micros.Base.Words.{u32_mod}
use lt_micros.LtFsService.{ok}
use lt_micros.LtFsService.Bytes.{bytes_at}
use lt_micros.LtFsService.AtaDriver.{Ports, AtaDevice, ata_create, ata_read}
use lt_micros.LtFsService.AtaDriver.Reading.{
  IsDrive, IsBroken, ata_read-bytes_at, ata_read_broken, reader_of, reader_of-IsReader,
}
use lt_micros.LtFsService.Ext2.{
  Reader, IsReader, Ext2SuperBlock, Ext2Disk, Ext2Inode, FileMemory, read_file, read_super_block,
  super_block_of, read_disk_on_device, read_inode, inode_of, inode_offset, group_tables,
}
use lt_micros.LtFsService.Ext2.Contents.{content_of, listed, IsInside, read_file-gather}
use lt_micros.LtFsService.Ext2.Inodes.{disk_of, read_inode-disk_of}

-- The registers of a drive in LBA mode, and the place of the disk that the next word comes from.
record Drive : Type 0 where
  low : ℕ
  mid : ℕ
  hi : ℕ
  top : ℕ
  next : ℕ

abbrev written : (port value : ℕ) → Drive → Drive
written port value m =
    if port == 0x173
    then record m { low = value }
    else if port == 0x174
    then record m { mid = value }
    else if port == 0x175
    then record m { hi = value }
    else if port == 0x176
    then record m { top = value }
    else if port == 0x177
    then record m { next = (m.low + 256 * m.mid + 65536 * m.hi + 0x100_0000 * (m.top % 16)) * 512 }
    else m

-- The drive at 0x170 over a disk.
abbrev drive_ports : (ℕ → ℕ) → Ports
drive_ports disk = record {
  Machine = Drive;
  inb = λ port m. (8, m);
  inw = λ port m. (disk m.next + 256 * disk (m.next + 1), record m { next = m.next + 2 });
  outb = written;
  outw = λ port value m. m;
}

abbrev drive : Drive
drive = record { low = 0; mid = 0; hi = 0; top = 0; next = 0 }

drive_ports-IsDrive :
    (disk : ℕ → ℕ) → ((i : ℕ) → disk i < 256) → IsDrive (drive_ports disk) 0x170 disk
drive_ports-IsDrive disk byte = record {
  next = λ (m : Drive). m.next;
  byte = byte;
  idle = λ port m. refl;
  sound = λ port m. refl;
  whole = λ port m. refl;
  ready = λ port m. refl;
  watched = λ port m. refl;
  commanded = λ lba m h. omega arith;
  word = λ m. refl;
  moved = λ m. refl;
}

-- A disk whose bytes count up.
abbrev counting : ℕ → ℕ
counting place = place % 251

ata_read-bytes_at_example :
    (after : Drive) × (ata_read
        (drive_ports counting)
        1
        true
        (ata_create 0x170 0xa0)
        1000
        100
        []
        true
        drive
      ≡ ok (some (bytes_at counting 1000 100), true, after))
ata_read-bytes_at_example =
    ata_read-bytes_at (drive_ports counting) 1 0x170 0xa0 (omega arith) counting
      (drive_ports-IsDrive counting (λ i. omega arith)) 1000 100 [] true drive (omega arith)

-- A drive that shows an error.
abbrev broken_ports : Ports
broken_ports = record {
  Machine = Unit {0};
  inb = λ port m. (1, m);
  inw = λ port m. (0, m);
  outb = λ port value m. m;
  outw = λ port value m. m;
}

abbrev device : AtaDevice
device = record {
  type = 0xa0;
  data_port = 0x170;
  error_port = 0x171;
  sector_count_port = 0x172;
  lba_low_port = 0x173;
  lba_mid_port = 0x174;
  lba_hi_port = 0x175;
  device_port = 0x176;
  command_port = 0x177;
  control_port = 0x376;
}

broken_ports-IsBroken : IsBroken broken_ports 1 device
broken_ports-IsBroken = record { idle = λ port m. refl; error = λ port m. refl }

ata_read_broken_example :
    (after : Unit {0}) × (ata_read broken_ports 1 true device 1000 100 [] true tt
      ≡ ok (none, false, after))
ata_read_broken_example =
    ata_read_broken broken_ports 1 device broken_ports-IsBroken (omega arith) 1000 100 [] true tt
      (omega arith)

-- A disk with 128 in the field inodeSize of its super block, 0 in logBlockSize, and else ones.
abbrev bytes : ℕ → ℕ
bytes place =
    if place == 1112
    then 128
    else if place == 1113
    then 0
    else if leb 1048 place && leb place 1051
    then 0
    else 1

bytes-byte : (place : ℕ) → bytes place < 256
bytes-byte place = ground arith

-- AtaRead on a drive with that disk.
abbrev reader : Reader
reader = reader_of (drive_ports bytes) 1 0x170 0xa0 drive

reader-IsReader : IsReader bytes reader
reader-IsReader =
    reader_of-IsReader (drive_ports bytes) 1 0x170 0xa0 drive bytes (omega arith)
      (drive_ports-IsDrive bytes bytes-byte)

abbrev super_block : Ext2SuperBlock
super_block = record {
  inodes_count = 0x101_0101;
  blocks_count = 0x101_0101;
  log_block_size = 0;
  blocks_per_group = 0x101_0101;
  inodes_per_group = 0x101_0101;
  inode_size = 128;
}

super_block_read : read_super_block reader true [] ≡ ok super_block
unfolding read_super_block super_block_of
super_block_read = rw (reader-IsReader.reads 1024 1024 [] (omega arith), read_super_block) refl

inside :
    (table : ℕ)
    → get_elem? (disk_of bytes super_block).group_dec ((2 - 1) / 0x101_0101) ≡ some table
    → inode_offset (disk_of bytes super_block) table 2 + 128 < u32_mod
unfolding group_tables
inside table e =
    subst (λ (k : ℕ). inode_offset (disk_of bytes super_block) k 2 + 128 < u32_mod)
      (some-injective 0x101_0101 table e) (omega arith)

read_inode-disk_of_example :
    let disk = disk_of bytes super_block in
    (read_disk_on_device reader
        (record { for_disk = true; for_super_block = true; for_group_desc = true; bytes = [] })
      ≡ ok disk)
    × ((table : ℕ) × (get_elem? disk.group_dec ((2 - 1) / 0x101_0101) ≡ some table)
        × (read_inode reader disk 2 true []
            ≡ ok (inode_of (bytes_at bytes (inode_offset disk table 2) 128))))
read_inode-disk_of_example =
    read_inode-disk_of bytes reader super_block [] 2 reader-IsReader super_block_read (omega arith)
      (omega arith) (omega arith) (omega arith) (omega arith) (omega arith) (omega arith)
      (omega arith) (omega arith) inside

abbrev disk : Ext2Disk
disk = record { super_block = super_block; block_size = 8; groups = 1; group_dec = [] }

-- A direct block, one that the table in block 1 of four entries names, and 12 bytes.
abbrev inode : Ext2Inode
inode = record {
  mode = 0x8000;
  size = 12;
  block = λ i. if i == 0 then 4 else if i == 12 then 1 else 0;
}

abbrev granted : FileMemory
granted = record {
  for_content = true;
  for_block = true;
  for_singly = true;
  for_doubly = true;
  bytes = [];
}

all-IsInside : IsInside bytes 8 listed inode
all-IsInside = record {
  direct = omega arith;
  first_tables = omega arith;
  singly = omega arith;
  second_tables = tt;
  doubly = tt;
}

read_file-gather_example :
    read_file reader disk granted inode ≡ ok (content_of bytes 8 listed inode)
read_file-gather_example =
    read_file-gather disk bytes reader granted inode reader-IsReader refl refl refl refl
      all-IsInside

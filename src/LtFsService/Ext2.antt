-- ===== src/LtFsService/Ext2.antt =====
-- userland/system/LtFsService/src/Ext2.h and Ext2.cpp: an ext2 disk that is read. AtaRead is a
-- parameter: it answers what the buffer holds afterwards, or `none` for a negative result. Structures
-- are read from bytes at their offsets. What HeapAlloc answers is an argument, as is what new memory
-- holds. A table is read at an index beyond it as a fault.
pub mod Contents
pub mod Inodes
use lt_micros.Base.{
  ℕ, zero, suc, ◌+◌, ◌-◌, ◌*◌, ◌/◌, ◌%◌, ◌^◌, ◌<◌, ◌≡◌, ◌||◌, Option, none, some, List, [], ◌∷◌,
  ◌++◌, Bool, true, false, not, if◌then◌else◌, ◌==◌, ltb, leb, get_elem?, get_or, take, drop,
}
use lt_micros.Base.Words.{add32, mul32, u32_mod}
use lt_micros.LtFsService.Bytes.{bytes_at}
use lt_micros.LtFsService.{Answer, ok, err, fault, ◌>>=◌, failure, invalid_parameter, alloc_failed}

-- AtaRead with offset, size and the bytes of the buffer.
abbrev pub Reader : Type 0
Reader = (offset size : ℕ) → List ℕ → Option (List ℕ)

-- Such a reader answers the bytes of the disk for a range that ends below 2 ^ 32. Where offset and size
-- wrap, AtaRead reads no sector.
pub record IsReader (disk : ℕ → ℕ) (ata_read : Reader) : Type 0 where
  pub reads :
      (offset size : ℕ) (buffer : List ℕ)
      → offset + size < u32_mod
      → ata_read offset size buffer ≡ some (bytes_at disk offset size)

-- A field of two bytes, and one of four, the lowest byte first.
abbrev pub u16_at : List ℕ → ℕ → ℕ
u16_at bytes i = get_or bytes i 0 + 256 * get_or bytes (i + 1) 0

abbrev pub u32_at : List ℕ → ℕ → ℕ
u32_at bytes i = u16_at bytes i + 65536 * u16_at bytes (i + 2)

abbrev pub mbr_reserved_size : ℕ
mbr_reserved_size = 1024

abbrev pub inode_nb_direct_ptr : ℕ
inode_nb_direct_ptr = 12

-- The sizes of the packed structures.
abbrev pub super_block_size : ℕ
super_block_size = 1024

abbrev pub group_desc_size : ℕ
group_desc_size = 32

abbrev pub sizeof_inode : ℕ
sizeof_inode = 128

-- The fields of Ext2SuperBlock that are used.
pub record Ext2SuperBlock : Type 0 where
  pub inodes_count : ℕ
  pub blocks_count : ℕ
  pub log_block_size : ℕ
  pub blocks_per_group : ℕ
  pub inodes_per_group : ℕ
  pub inode_size : ℕ

unfoldable pub super_block_of : List ℕ → Ext2SuperBlock
super_block_of bytes = record {
  inodes_count = u32_at bytes 0;
  blocks_count = u32_at bytes 4;
  log_block_size = u32_at bytes 24;
  blocks_per_group = u32_at bytes 32;
  inodes_per_group = u32_at bytes 40;
  inode_size = u16_at bytes 88;
}

-- The fields of Ext2Inode that are used.
pub record Ext2Inode : Type 0 where
  pub mode : ℕ
  pub size : ℕ
  pub block : ℕ → ℕ

unfoldable pub inode_of : List ℕ → Ext2Inode
inode_of bytes = record {
  mode = u16_at bytes 0;
  size = u32_at bytes 4;
  block = λ i. u32_at bytes (40 + 4 * i);
}

-- `group_dec` is the field inodeTable of each group descriptor.
pub record Ext2Disk : Type 0 where
  pub super_block : Ext2SuperBlock
  pub block_size : ℕ
  pub groups : ℕ
  pub group_dec : List ℕ

unfoldable pub group_tables : ℕ → List ℕ → List ℕ
group_tables zero bytes = []
group_tables (suc n) bytes = u32_at bytes 8 ∷ group_tables n (drop group_desc_size bytes)

-- How many groups of `per_group` there are for `count`.
abbrev pub groups_for : ℕ → ℕ → ℕ
groups_for count per_group = count / per_group + (if count % per_group == 0 then 0 else 1)

-- What the allocations of Ext2ReadDiskOnDevice answer.
pub record DiskMemory : Type 0 where
  pub for_disk : Bool
  pub for_super_block : Bool
  pub for_group_desc : Bool
  pub bytes : List ℕ

-- What the allocations of Ext2ReadFile answer.
pub record FileMemory : Type 0 where
  pub for_content : Bool
  pub for_block : Bool
  pub for_singly : Bool
  pub for_doubly : Bool
  pub bytes : List ℕ

-- A file that is being read: the bytes copied, how many are left, and the buffer `block`.
pub record Copy : Type 0 where
  pub content : List ℕ
  pub left : ℕ
  pub block : List ℕ

-- Where the inode `num` stands, in the table of its group.
abbrev pub inode_offset : Ext2Disk → ℕ → ℕ → ℕ
inode_offset disk table num =
    let index = (num - 1) % disk.super_block.inodes_per_group in
    add32 (mul32 table disk.block_size) (mul32 index disk.super_block.inode_size)

-- The entry at an index of a table of blocks.
abbrev pub entry : List ℕ → ℕ → ℕ
entry bytes i = u32_at bytes (4 * i)

module _ (ata_read : Reader) where
  -- ReadSuperBlock
  unfoldable pub read_super_block : Bool → List ℕ → Answer Ext2SuperBlock
  unfolding super_block_of
  read_super_block allocated bytes =
      if not allocated
      then err alloc_failed
      else elim (ata_read super_block_size mbr_reserved_size bytes) [
        | none ↦ err failure
        | some read ↦ ok (super_block_of read)
      ]

  -- ReadGroupDesc
  unfoldable pub read_group_desc : (block_size groups : ℕ) → Bool → List ℕ → Answer (List ℕ)
  unfolding group_tables
  read_group_desc block_size groups allocated bytes =
      let offset = if block_size == mbr_reserved_size then 2048 else block_size in
      if not allocated
      then err alloc_failed
      else elim (ata_read offset (groups * group_desc_size) bytes) [
        | none ↦ err failure
        | some read ↦ ok (group_tables groups read)
      ]

  -- Ext2ReadDiskOnDevice once the super block is read; the number of groups is a field of 16 bits.
  unfoldable pub read_groups : Ext2SuperBlock → Bool → List ℕ → Answer Ext2Disk
  unfolding read_group_desc
  read_groups sb allocated bytes =
      let block_size = 1024 * 2 ^ sb.log_block_size % u32_mod in
      let i = groups_for sb.blocks_count sb.blocks_per_group in
      let j = groups_for sb.inodes_count sb.inodes_per_group in
      let groups = (if ltb j i then i else j) % 65536 in
      if sb.blocks_per_group == 0
      then fault
      else if sb.inodes_per_group == 0
      then fault
      else read_group_desc block_size groups allocated bytes >>= λ tables. ok (record {
        super_block = sb;
        block_size = block_size;
        groups = groups;
        group_dec = tables;
      })

  -- Ext2ReadDiskOnDevice
  unfoldable pub read_disk_on_device : DiskMemory → Answer Ext2Disk
  unfolding read_super_block read_groups
  read_disk_on_device memory =
      if not memory.for_disk
      then err alloc_failed
      else read_super_block memory.for_super_block memory.bytes >>= λ sb.
          read_groups sb memory.for_group_desc memory.bytes

  -- Ext2ReadInode; without memory it goes on to read to the null pointer. The number is an int, whose
  -- 32 bits are given. The buffer has 128 bytes: a longer inode is written over what lies behind it,
  -- which counts as a fault.
  unfoldable pub read_inode : Ext2Disk → (num : ℕ) → Bool → List ℕ → Answer Ext2Inode
  unfolding inode_of
  read_inode disk num allocated bytes =
      if num == 0 || leb (2 ^ 31) num
      then err invalid_parameter
      else if disk.super_block.inodes_per_group == 0
      then fault
      else elim (get_elem? disk.group_dec ((num - 1) / disk.super_block.inodes_per_group)) [
        | none ↦ fault
        | some table ↦
            if not allocated || ltb sizeof_inode disk.super_block.inode_size
            then fault
            else elim (ata_read (inode_offset disk table num) disk.super_block.inode_size bytes) [
              | none ↦ err failure
              | some read ↦ ok (inode_of read)
            ]
      ]

  -- A block is read into a buffer of that size.
  abbrev pub read_block : (block_size number : ℕ) → List ℕ → Option (List ℕ)
  read_block block_size number = ata_read (mul32 number block_size) block_size

  -- The body of the loops of Ext2ReadFile on a block.
  unfoldable pub copy_block : (block_size number : ℕ) → Copy → Option Copy
  copy_block block_size number c =
      let size = if ltb block_size c.left then block_size else c.left in
      elim (read_block block_size number c.block) [
        | none ↦ none
        | some read ↦
            some
              (record { content = c.content ++ take size read; left = c.left - size; block = read })
      ]

  -- A loop over a table of blocks from `i` on, for the rounds left: it ends at a 0 of the table, and
  -- reads the block `pick i`.
  unfoldable pub copy_while :
      (block_size : ℕ) → (count i : ℕ) → (table pick : ℕ → ℕ) → Copy → Option Copy
  unfolding copy_block
  copy_while block_size zero i table pick c = some c
  copy_while block_size (suc count) i table pick c = elim (table i == 0) [
    | true ↦ some c
    | false ↦ elim (copy_block block_size (pick i) c) [
      | none ↦ none
      | some d ↦ copy_while block_size count (i + 1) table pick d
    ]
  ]

  -- The loop over a table of tables. The inner loop runs over `j` and reads the block of the entry `i`.
  unfoldable pub copy_tables :
      (block_size : ℕ) → (count i : ℕ) → List ℕ → (doubly : List ℕ) → Copy → Option Copy
  unfolding copy_while
  copy_tables block_size zero i singly doubly c = some c
  copy_tables block_size (suc count) i singly doubly c = elim (entry singly i == 0) [
    | true ↦ some c
    | false ↦ elim (read_block block_size (entry singly i) doubly) [
      | none ↦ none
      | some inner ↦
          elim (copy_while block_size (block_size / 4) 0 (entry inner) (λ (j : ℕ). entry inner i)
            c) [ none ↦ none | some d ↦ copy_tables block_size count (i + 1) singly inner d ]
    ]
  ]

  -- The part for the block 12 of the inode, and that for the block 13. `fst` of the result is
  -- singlyBlock.
  unfoldable pub copy_singly :
      (block_size : ℕ) → FileMemory → Ext2Inode → Copy → Answer (List ℕ × Copy)
  unfolding copy_while
  copy_singly block_size memory inode c =
      if inode.block 12 == 0
      then ok (memory.bytes, c)
      else if not memory.for_singly
      then err alloc_failed
      else elim (read_block block_size (inode.block 12) memory.bytes) [
        | none ↦ err failure
        | some singly ↦
            elim (copy_while block_size (block_size / 4) 0 (entry singly) (entry singly) c) [
              | none ↦ err failure
              | some d ↦ ok (singly, d)
            ]
      ]

  unfoldable pub copy_doubly :
      (block_size : ℕ) → FileMemory → Ext2Inode → List ℕ → Copy → Answer Copy
  unfolding copy_tables
  copy_doubly block_size memory inode singly c =
      if inode.block 13 == 0
      then ok c
      else if not memory.for_singly
      then err alloc_failed
      else if not memory.for_doubly
      then err alloc_failed
      else elim (read_block block_size (inode.block 13) singly) [
        | none ↦ err failure
        | some outer ↦ elim (copy_tables block_size (block_size / 4) 0 outer memory.bytes c) [
          | none ↦ err failure
          | some d ↦ ok d
        ]
      ]

  -- Ext2ReadFile: the bytes copied; what is behind them, up to the size of the file, is as HeapAlloc
  -- left it.
  unfoldable pub read_file : Ext2Disk → FileMemory → Ext2Inode → Answer (List ℕ)
  unfolding copy_while copy_singly copy_doubly
  read_file disk memory inode =
      let start : Copy = record { content = []; left = inode.size; block = memory.bytes } in
      if not memory.for_content
      then err alloc_failed
      else if not memory.for_block
      then err alloc_failed
      else elim (copy_while disk.block_size inode_nb_direct_ptr 0 inode.block inode.block start) [
        | none ↦ err failure
        | some direct ↦ copy_singly disk.block_size memory inode direct >>= λ (singly, c).
            copy_doubly disk.block_size memory inode singly c >>= λ d. ok d.content
      ]

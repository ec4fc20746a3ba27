-- ===== src/LtFsService/Ext2/Inodes.antt =====
-- Ext2ReadDiskOnDevice and Ext2ReadInode: an inode of the disk is found in the table of its group.
use lt_micros.Base.{
  ℕ, zero, suc, ◌+◌, ◌-◌, ◌*◌, ◌/◌, ◌%◌, ◌^◌, ◌≤◌, ◌<◌, ◌≡◌, ◌≢◌, refl, inl, inr, some, List, true,
  arith, ◌==◌, ltb, if◌then◌else◌, Bool-cases, get_elem?, drop,
}
use native.Mathlib.Nat.{div-lt_iff_lt-mul, div-add-mod', lt-div-mul-add}
use lt_micros.Base.Words.{u32_mod}
use lt_micros.LtFsService.{ok}
use lt_micros.LtFsService.Ext2.{
  IsReader, Reader, Ext2SuperBlock, Ext2Disk, mbr_reserved_size, group_desc_size, groups_for,
  group_tables, inode_of, inode_offset, read_super_block, read_group_desc, read_groups,
  read_disk_on_device, read_inode, u32_at,
}
use lt_micros.LtFsService.Bytes.{bytes_at}

-- The group of a number below the count is one of the groups.
in_groups :
    (num count per_group : ℕ)
    → per_group ≢ 0
    → 0 < num
    → num ≤ count
    → (num - 1) / per_group < groups_for count per_group
in_groups num count per_group positive from below =
    let rest : (count % per_group == 0 ≡ true) → count % per_group ≡ 0 = λ z. ground arith in
    let bound : num - 1 < groups_for count per_group * per_group =
      elim (Bool-cases (count % per_group == 0)) [
        | inl z ↦ rw z (omega (arith, div-add-mod' count per_group, rest z))
        | inr nz ↦ rw nz (omega (arith, lt-div-mul-add {a = count} {b = per_group} (omega arith)))
      ] in
    (div-lt_iff_lt-mul (omega arith)).1 bound

-- Each group has an entry.
group_tables-entry :
    (n i : ℕ) (bytes : List ℕ)
    → i < n
    → (table : ℕ) × (get_elem? (group_tables n bytes) i ≡ some table)
unfolding group_tables
group_tables-entry zero i bytes h = absurd (omega arith)
group_tables-entry (suc n) zero bytes h = (u32_at bytes 8, refl)
group_tables-entry (suc n) (suc i) bytes h =
    group_tables-entry n i (drop group_desc_size bytes) (omega arith)

-- The disk that is made of a super block and the bytes.
abbrev pub disk_of : (ℕ → ℕ) → Ext2SuperBlock → Ext2Disk
disk_of bytes sb =
    let block_size = 1024 * 2 ^ sb.log_block_size % u32_mod in
    let i = groups_for sb.blocks_count sb.blocks_per_group in
    let j = groups_for sb.inodes_count sb.inodes_per_group in
    let groups = (if ltb j i then i else j) % 65536 in
    let offset = if block_size == mbr_reserved_size then 2048 else block_size in
    record {
      super_block = sb;
      block_size = block_size;
      groups = groups;
      group_dec = group_tables groups (bytes_at bytes offset (groups * group_desc_size));
    }

-- The group of an inode is below the number of groups.
below_groups : (i j g : ℕ) → i < 65536 → j < 65536 → g < j → g < (if ltb j i then i else j) % 65536
below_groups i j g h k l = ground arith

group_table_ends :
    (block_size groups : ℕ)
    → block_size < 2 ^ 31
    → groups < 65536
    → (if block_size == mbr_reserved_size then 2048 else block_size) + groups * group_desc_size
      < u32_mod
group_table_ends block_size groups h k = ground arith

-- Given memory, a reader that answers the bytes of the disk below 2 ^ 32, a super block with groups, with
-- inodes of at most 128 bytes, and with blocks of less than 2 ^ 31 bytes, and fewer than 2 ^ 16 groups,
-- Ext2ReadDiskOnDevice answers a disk. On it Ext2ReadInode finds every inode below 2 ^ 31 in the table of
-- its group, and reads it at its place there, if that ends below 2 ^ 32.
pub read_inode-disk_of :
    (bytes : ℕ → ℕ) (ata_read : Reader) (sb : Ext2SuperBlock) (garbage : List ℕ) (num : ℕ)
    → IsReader bytes ata_read
    → read_super_block ata_read true garbage ≡ ok sb
    → sb.blocks_per_group ≢ 0
    → sb.inodes_per_group ≢ 0
    → sb.inode_size ≤ 128
    → (disk_of bytes sb).block_size < 2 ^ 31
    → 0 < num
    → num ≤ sb.inodes_count
    → num < 2 ^ 31
    → groups_for sb.blocks_count sb.blocks_per_group < 65536
    → groups_for sb.inodes_count sb.inodes_per_group < 65536
    → let disk = disk_of bytes sb in
      ((table : ℕ)
        → get_elem? disk.group_dec ((num - 1) / sb.inodes_per_group) ≡ some table
        → inode_offset disk table num + sb.inode_size < u32_mod)
      → (read_disk_on_device ata_read (record {
        for_disk = true;
        for_super_block = true;
        for_group_desc = true;
        bytes = garbage;
      })
          ≡ ok disk)
        × ((table : ℕ) × (get_elem? disk.group_dec ((num - 1) / sb.inodes_per_group) ≡ some table)
            × (read_inode ata_read disk num true garbage
                ≡ ok (inode_of (bytes_at bytes (inode_offset disk table num) sb.inode_size))))
unfolding read_disk_on_device read_groups read_group_desc read_inode
read_inode-disk_of bytes ata_read sb garbage num reader first bpg ipg short small_blocks from below
      int few_blocks few_inodes inside =
    let disk = disk_of bytes sb in
    let start = if disk.block_size == mbr_reserved_size then 2048 else disk.block_size in
    let (table, there) =
      group_tables-entry disk.groups ((num - 1) / sb.inodes_per_group)
        (bytes_at bytes start (disk.groups * group_desc_size))
        (below_groups (groups_for sb.blocks_count sb.blocks_per_group)
          (groups_for sb.inodes_count sb.inodes_per_group) ((num - 1) / sb.inodes_per_group)
          few_blocks few_inodes
          (in_groups num sb.inodes_count sb.inodes_per_group ipg from below)) in
    let low : start + disk.groups * group_desc_size < u32_mod =
      group_table_ends disk.block_size disk.groups small_blocks (omega arith) in
    (
      ground (arith, first, reader.reads start (disk.groups * group_desc_size) garbage low),
      (
        table,
        there,
        ground (
          arith,
          there,
          reader.reads (inode_offset disk table num) sb.inode_size garbage (inside table there),
        ),
      ),
    )

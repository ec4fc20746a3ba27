-- ===== src/LtFsService/Ext2/Contents.antt =====
-- Ext2ReadFile: which blocks of the disk it copies.
use lt_micros.Base.{
  ℕ, zero, suc, ◌+◌, ◌-◌, ◌*◌, ◌/◌, ◌^◌, ◌<◌, ◌≡◌, get_or, refl, sym, ap, ◌∙◌, inl, inr, Option,
  some, List, [], ◌∷◌, ◌++◌, true, arith, ◌==◌, ltb, if◌then◌else◌, Bool-cases, length,
  length-append, take, take_all, take-append, append_assoc, append_nil, replicate,
}
use lt_micros.Base.Words.{mul32, u32_mod}
use mathlib.Core.Path.{subst}
use lt_micros.LtFsService.{ok}
use lt_micros.LtFsService.Bytes.{bytes_at, length-bytes_at}
use lt_micros.LtFsService.Ext2.{
  IsReader, Reader, Ext2Disk, Ext2Inode, FileMemory, Copy, copy_block, copy_while, copy_tables,
  copy_singly, copy_doubly, read_file, entry, inode_nb_direct_ptr,
}

-- How many entries of a table, from `i` on and at most `count`, come before a 0.
abbrev pub used : (count i : ℕ) → (ℕ → ℕ) → ℕ
used zero i table = 0
used (suc count) i table = if table i == 0 then 0 else suc (used count (i + 1) table)

-- `n` entries from `i` on.
abbrev pub entries : (n i : ℕ) → (ℕ → ℕ) → List ℕ
entries zero i table = []
entries (suc n) i table = table i ∷ entries n (i + 1) table

min_taken :
    (bs left : ℕ) (xs : List ℕ)
    → length xs ≡ bs
    → take (if ltb bs left then bs else left) xs ≡ take left xs
min_taken bs left xs e = elim (Bool-cases (ltb bs left)) [
  | inl h ↦ rw h (take_all bs xs (omega (arith, e)) ∙ sym (take_all left xs (ground (arith, e, h))))
  | inr h ↦ rw h refl
]

module _ (disk : ℕ → ℕ) (bs : ℕ) where
  abbrev pub block_data : ℕ → List ℕ
  block_data number = bytes_at disk (mul32 number bs) bs

  abbrev pub gather : List ℕ → List ℕ
  gather [] = []
  gather (n ∷ ns) = block_data n ++ gather ns

  -- The blocks that the first `n` tables of a table of tables name, from the table `i` on. Of each
  -- table as many blocks are taken as it has entries, each time the block of the entry `i`.
  abbrev pub repeated : (words : List ℕ → ℕ → ℕ) (n i : ℕ) → (ℕ → ℕ) → List ℕ
  repeated words zero i outer = []
  repeated words (suc n) i outer =
      let inner = words (block_data (outer i)) in
      replicate (used (bs / 4) 0 inner) (inner i) ++ repeated words n (i + 1) outer

  -- The blocks of a file, in the order of the file, where `words` reads a table, and then the blocks of
  -- the tables that are read for it.
  abbrev pub direct_blocks : Ext2Inode → List ℕ
  direct_blocks inode = entries (used 12 0 inode.block) 0 inode.block

  abbrev pub singly_blocks : (words : List ℕ → ℕ → ℕ) → Ext2Inode → List ℕ
  singly_blocks words inode =
      let table = words (block_data (inode.block 12)) in
      if inode.block 12 == 0 then [] else entries (used (bs / 4) 0 table) 0 table

  abbrev pub doubly_blocks : (words : List ℕ → ℕ → ℕ) → Ext2Inode → List ℕ
  doubly_blocks words inode =
      let outer = words (block_data (inode.block 13)) in
      if inode.block 13 == 0 then [] else repeated words (used (bs / 4) 0 outer) 0 outer

  abbrev pub singly_tables : Ext2Inode → List ℕ
  singly_tables inode = if inode.block 12 == 0 then [] else inode.block 12 ∷ []

  abbrev pub doubly_tables : (words : List ℕ → ℕ → ℕ) → Ext2Inode → List ℕ
  doubly_tables words inode =
      let outer = words (block_data (inode.block 13)) in
      if inode.block 13 == 0 then [] else inode.block 13 ∷ entries (used (bs / 4) 0 outer) 0 outer

  -- The bytes of a file, as far as its size says.
  abbrev pub content_of : (words : List ℕ → ℕ → ℕ) → Ext2Inode → List ℕ
  content_of words inode =
      take inode.size
        (gather (direct_blocks inode ++ (singly_blocks words inode ++ doubly_blocks words inode)))

  -- Each block ends below 2 ^ 32.
  abbrev pub AllInside : List ℕ → Type 0
  AllInside [] = Unit {0}
  AllInside (n ∷ ns) = (mul32 n bs + bs < u32_mod) × AllInside ns

  pub record IsInside (words : List ℕ → ℕ → ℕ) (inode : Ext2Inode) : Type 0 where
    pub direct : AllInside (direct_blocks inode)
    pub first_tables : AllInside (singly_tables inode)
    pub singly : AllInside (singly_blocks words inode)
    pub second_tables : AllInside (doubly_tables words inode)
    pub doubly : AllInside (doubly_blocks words inode)

  AllInside-append : (ns ms : List ℕ) → AllInside (ns ++ ms) → AllInside ns × AllInside ms
  AllInside-append [] ms h = (tt, h)
  AllInside-append (n ∷ ns) ms h = let (k, l) = AllInside-append ns ms h.1 in ((h.0, k), l)

  gather-append : (ns ms : List ℕ) → gather (ns ++ ms) ≡ gather ns ++ gather ms
  gather-append [] ms = refl
  gather-append (n ∷ ns) ms =
      ap (◌++◌ (block_data n)) (gather-append ns ms)
      ∙ sym (append_assoc (block_data n) (gather ns) (gather ms))

  -- Between `c` and `d` the blocks `ns` were copied, as far as bytes were left.
  record Copied (ns : List ℕ) (c d : Copy) : Type 0 where
    content : d.content ≡ c.content ++ take c.left (gather ns)
    left : d.left ≡ c.left - length (gather ns)

  Copied-nothing : (c : Copy) → Copied [] c c
  Copied-nothing c = record {
    content =
        sym (append_nil c.content) ∙ ap (◌++◌ c.content) (sym (take_all c.left [] (omega arith)));
    left = omega arith;
  }

  Copied-append :
      (ns ms : List ℕ) (c d e : Copy) → Copied ns c d → Copied ms d e → Copied (ns ++ ms) c e
  Copied-append ns ms c d e p q = record {
    content =
        q.content
        ∙ ap (λ (xs : List ℕ). xs ++ take d.left (gather ms)) p.content
        ∙ append_assoc c.content (take c.left (gather ns)) (take d.left (gather ms))
        ∙ ap (λ (k : ℕ). c.content ++ (take c.left (gather ns) ++ take k (gather ms))) p.left
        ∙ ap (◌++◌ c.content) (sym (take-append c.left (gather ns) (gather ms)))
        ∙ ap (λ (xs : List ℕ). c.content ++ take c.left xs) (sym (gather-append ns ms));
    left = omega (
      arith,
      p.left,
      q.left,
      ap length (gather-append ns ms),
      length-append (gather ns) (gather ms),
    );
  }

  module _ (ata_read : Reader) (reader : IsReader disk ata_read) where
    -- What a copy leads to.
    record Copies (ns : List ℕ) (c : Copy) (after : Option Copy) : Type 0 where
      copy : Copy
      succeeds : after ≡ some copy
      copied : Copied ns c copy

    copy_block-Copies :
        (number : ℕ) (c : Copy)
        → mul32 number bs + bs < u32_mod
        → Copies (number ∷ []) c (copy_block ata_read bs number c)
    unfolding copy_block
    copy_block-Copies number c inside =
        let size = if ltb bs c.left then bs else c.left in
        record {
          copy = record {
            content = c.content ++ take size (block_data number);
            left = c.left - size;
            block = block_data number;
          };
          succeeds = rw (reader.reads (mul32 number bs) bs c.block inside, copy_block) refl;
          copied = record {
            content = ap (◌++◌ c.content) (
                min_taken bs c.left (block_data number) (length-bytes_at disk (mul32 number bs) bs)
                ∙ ap (take c.left) (sym (append_nil (block_data number))));
            left = ground (
              arith,
              ap length (append_nil (block_data number)),
              length-bytes_at disk (mul32 number bs) bs,
            );
          };
        }

    copy_while-Copies :
        (count i : ℕ) (table pick : ℕ → ℕ) (c : Copy)
        → AllInside (entries (used count i table) i pick)
        → Copies
            (entries (used count i table) i pick)
            c
            (copy_while ata_read bs count i table pick c)
    unfolding copy_while
    copy_while-Copies zero i table pick c =
        λ inside. record { copy = c; succeeds = refl; copied = Copied-nothing c }
    copy_while-Copies (suc count) i table pick c = elim (Bool-cases (table i == 0)) [
      | inl z ↦
          rw (z, copy_while)
            (λ inside. record { copy = c; succeeds = refl; copied = Copied-nothing c })
      | inr nz ↦
          rw (nz, copy_while)
            (λ inside.
              let first = copy_block-Copies (pick i) c inside.0 in
              let others = copy_while-Copies count (i + 1) table pick first.copy inside.1 in
              (rw first.succeeds (record {
                copy = others.copy;
                succeeds = others.succeeds;
                copied =
                    Copied-append (pick i ∷ []) (entries (used count (i + 1) table) (i + 1) pick) c
                      first.copy others.copy first.copied others.copied;
              })))
    ]

    -- The loop over one block.
    replicate-entries :
        (n i : ℕ) (number : ℕ) → entries n i (λ (j : ℕ). number) ≡ replicate n number
    replicate-entries zero i number = refl
    replicate-entries (suc n) i number = ap (◌∷◌ number) (replicate-entries n (i + 1) number)

    copy_tables-Copies :
        (count i : ℕ) (singly doubly : List ℕ) (c : Copy)
        → AllInside (entries (used count i (entry singly)) i (entry singly))
        → AllInside (repeated entry (used count i (entry singly)) i (entry singly))
        → Copies
            (repeated entry (used count i (entry singly)) i (entry singly))
            c
            (copy_tables ata_read bs count i singly doubly c)
    unfolding copy_tables
    copy_tables-Copies zero i singly doubly c =
        λ tables inside. record { copy = c; succeeds = refl; copied = Copied-nothing c }
    copy_tables-Copies (suc count) i singly doubly c = elim (Bool-cases (entry singly i == 0)) [
      | inl z ↦
          rw (z, copy_tables)
            (λ tables inside. record { copy = c; succeeds = refl; copied = Copied-nothing c })
      | inr nz ↦
          rw (nz, copy_tables)
            (λ tables inside.
              let inner = block_data (entry singly i) in
              let several = replicate (used (bs / 4) 0 (entry inner)) (entry inner i) in
              let others_repeated =
                repeated entry (used count (i + 1) (entry singly)) (i + 1) (entry singly) in
              let same = replicate-entries (used (bs / 4) 0 (entry inner)) 0 (entry inner i) in
              let (here, there) = AllInside-append several others_repeated inside in
              let first =
                copy_while-Copies (bs / 4) 0 (entry inner) (λ (j : ℕ). entry inner i) c
                  (subst AllInside (sym same) here) in
              let others =
                copy_tables-Copies count (i + 1) singly inner first.copy tables.1 there in
              (rw (reader.reads (mul32 (entry singly i) bs) bs doubly tables.0) (
                rw first.succeeds (record {
                  copy = others.copy;
                  succeeds = others.succeeds;
                  copied =
                      Copied-append several others_repeated c first.copy others.copy
                        (rw (sym same) first.copied) others.copied;
                }))))
    ]

    module _ (memory : FileMemory) (inode : Ext2Inode) (singly_granted : memory.for_singly ≡ true)
        (doubly_granted : memory.for_doubly ≡ true) where
      copy_singly-Copied :
          (c : Copy)
          → AllInside (singly_tables inode)
          → AllInside (singly_blocks entry inode)
          → (singly : List ℕ) × (d : Copy) × (copy_singly ata_read bs memory inode c
              ≡ ok (singly, d))
            × Copied (singly_blocks entry inode) c d
      unfolding copy_singly
      copy_singly-Copied c = elim (Bool-cases (inode.block 12 == 0)) [
        | inl z ↦ rw z (λ tables inside. (memory.bytes, c, ground (arith, z), Copied-nothing c))
        | inr nz ↦ rw nz (λ tables inside.
            let table = block_data (inode.block 12) in
            let all = copy_while-Copies (bs / 4) 0 (entry table) (entry table) c inside in
            (
              table,
              all.copy,
              rw singly_granted (
                  rw (reader.reads (mul32 (inode.block 12) bs) bs memory.bytes tables.0)
                    (rw all.succeeds refl)),
              all.copied,
            ))
      ]

      copy_doubly-Copied :
          (singly : List ℕ) (c : Copy)
          → AllInside (doubly_tables entry inode)
          → AllInside (doubly_blocks entry inode)
          → (d : Copy) × ((copy_doubly ata_read bs memory inode singly c ≡ ok d)
              × Copied (doubly_blocks entry inode) c d)
      unfolding copy_doubly
      copy_doubly-Copied singly c = elim (Bool-cases (inode.block 13 == 0)) [
        | inl z ↦ rw z (λ tables inside. (c, (ground (arith, z), Copied-nothing c)))
        | inr nz ↦ rw nz (λ tables inside.
            let outer = block_data (inode.block 13) in
            let all = copy_tables-Copies (bs / 4) 0 outer memory.bytes c tables.1 inside in
            (
              all.copy,
              (
                rw singly_granted (
                    rw doubly_granted (
                      rw (reader.reads (mul32 (inode.block 13) bs) bs singly tables.0)
                        (rw all.succeeds refl))),
                all.copied,
              ),
            ))
      ]

-- An entry of a table, as four bytes of it, the lowest first.
abbrev pub listed : List ℕ → ℕ → ℕ
listed bytes i =
    get_or bytes (4 * i) 0
    + 256 * get_or bytes (4 * i + 1) 0
    + 256 ^ 2 * get_or bytes (4 * i + 2) 0
    + 256 ^ 3 * get_or bytes (4 * i + 3) 0

entry-listed : (bytes : List ℕ) (i : ℕ) → entry bytes i ≡ listed bytes i
entry-listed bytes i =
    let last : 4 * i + 2 + 1 ≡ 4 * i + 3 = omega arith in
    omega (arith, ap (λ (k : ℕ). get_or bytes k 0) last)

read_file-entries :
    (disk : Ext2Disk) (bytes : ℕ → ℕ) (ata_read : Reader) (memory : FileMemory) (inode : Ext2Inode)
    → IsReader bytes ata_read
    → memory.for_content ≡ true
    → memory.for_block ≡ true
    → memory.for_singly ≡ true
    → memory.for_doubly ≡ true
    → IsInside bytes disk.block_size entry inode
    → read_file ata_read disk memory inode ≡ ok (content_of bytes disk.block_size entry inode)
unfolding read_file
read_file-entries disk bytes ata_read memory inode reader content block singly doubly inside =
    let bs = disk.block_size in
    let start : Copy = record { content = []; left = inode.size; block = memory.bytes } in
    let direct =
      copy_while-Copies bytes bs ata_read reader inode_nb_direct_ptr 0 inode.block inode.block start
        inside.direct in
    let (table, c, second, copied) =
      copy_singly-Copied bytes bs ata_read reader memory inode singly doubly direct.copy
        inside.first_tables inside.singly in
    let (d, (third, last)) =
      copy_doubly-Copied bytes bs ata_read reader memory inode singly doubly table c
        inside.second_tables inside.doubly in
    let all =
      Copied-append bytes bs (direct_blocks bytes bs inode) _ start direct.copy d direct.copied (
        Copied-append bytes bs (singly_blocks bytes bs entry inode)
          (doubly_blocks bytes bs entry inode) direct.copy c d copied last) in
    rw (content, read_file)
      (rw block (rw direct.succeeds (rw second (rw third (ap ok all.content)))))

-- Ext2ReadFile, given memory, with a reader that answers the bytes of the disk below 2 ^ 32, and with
-- every block and every table of the file below it, answers as many bytes of the blocks of the file as
-- its size says: the direct blocks up to the first 0, at most 12, then those of the table in the block
-- 12 of the inode, and then, for each table of the block 13, one and the same block as often as the
-- table has entries. An entry of a table is four bytes, the lowest first.
pub read_file-gather :
    (disk : Ext2Disk) (bytes : ℕ → ℕ) (ata_read : Reader) (memory : FileMemory) (inode : Ext2Inode)
    → IsReader bytes ata_read
    → memory.for_content ≡ true
    → memory.for_block ≡ true
    → memory.for_singly ≡ true
    → memory.for_doubly ≡ true
    → IsInside bytes disk.block_size listed inode
    → read_file ata_read disk memory inode ≡ ok (content_of bytes disk.block_size listed inode)
read_file-gather disk bytes ata_read memory inode reader content block singly doubly =
    subst
      (λ (words : List ℕ → ℕ → ℕ).
        IsInside bytes disk.block_size words inode
        → read_file ata_read disk memory inode ≡ ok (content_of bytes disk.block_size words inode))
      (λ j xs i. entry-listed xs i j)
      (read_file-entries disk bytes ata_read memory inode reader content block singly doubly)

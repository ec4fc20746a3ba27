-- ===== src/LtFsService/File.antt =====
-- userland/system/LtFsService/src/File.h, File.cpp and FsManager.cpp: the files that the service keeps
-- in memory, and the search of a path. A `File *` is an address, and the children of a directory are
-- the files from `leaf` along `next`. Ext2ReadInode and Ext2ReadFile are a parameter; the content of a
-- file is its memory, from its address on. What HeapAlloc answers, call by call, is in the state. The
-- walks along the children and over a directory take fuel. Where the search of a path fails, only its
-- status is modelled.
pub mod Lookup
pub mod Opening
use lt_micros.Base.{
  ℕ, zero, suc, ◌+◌, ◌-◌, ◌*◌, ◌/◌, ◌%◌, Option, none, some, List, [], ◌∷◌, Bool, true, false, not,
  ◌&&◌, ◌||◌, if◌then◌else◌, ◌==◌, length,
}
use lt_micros.Base.Words.{null, sub32}
use lt_micros.LtFsService.{
  Status, failure, null_parameter, file_not_found, not_a_directory, unexpected, alloc_failed,
  Answer, ok, err, fault, running, ◌>>=◌,
}
use lt_micros.LtFsService.Ext2.{Ext2Inode}

-- Ext2ReadInode and Ext2ReadFile on gExt2Disk.
pub record Volume : Type 0 where
  pub read_inode : ℕ → Answer Ext2Inode
  pub read_file : Ext2Inode → Answer (ℕ → ℕ)

-- A file without `disk` and `prev`, which nothing reads.
pub record File : Type 0 where
  pub inum : ℕ
  pub inode : Option Ext2Inode
  pub name : Option (List ℕ)
  pub content : ℕ → ℕ
  pub opened : Bool
  pub leaf : ℕ
  pub parent : ℕ
  pub next : ℕ

-- The files by their addresses, gRootFile, and what HeapAlloc answers next.
pub record Cache : Type 0 where
  pub files : ℕ → File
  pub root_file : ℕ
  pub supply : List ℕ

-- The file at an address is changed.
unfoldable pub update : ℕ → (File → File) → Cache → Cache
update a f c = record c { files = λ (b : ℕ). if b == a then f (c.files b) else c.files b }

-- HeapAlloc
unfoldable pub heap_alloc : Cache → ℕ × Cache
heap_alloc c = elim c.supply [ [] ↦ (null, c) | a ∷ rest ↦ (a, record c { supply = rest }) ]

abbrev is_nil : List ℕ → Bool
is_nil [] = true
is_nil (x ∷ xs) = false

abbrev equal_bytes : List ℕ → List ℕ → Bool
equal_bytes [] [] = true
equal_bytes [] (y ∷ ys) = false
equal_bytes (x ∷ xs) [] = false
equal_bytes (x ∷ xs) (y ∷ ys) = (x == y) && equal_bytes xs ys

-- StrCmp of userland/StdLib/src/stdlib.cpp answers 0; an empty string is compared with nothing.
unfoldable pub same_name : List ℕ → List ℕ → Bool
same_name xs ys = is_nil xs || is_nil ys || equal_bytes xs ys

-- The characters '/' and '.'
abbrev pub slash : ℕ
slash = 47

abbrev pub dot : ℕ
dot = 46

-- FirstIndexOf with '/', as the string in front of it, and the one behind it if there is one.
unfoldable pub split_path : List ℕ → List ℕ × Option (List ℕ)
split_path [] = ([], none)
split_path (x ∷ xs) =
    let rest = split_path xs in if x == slash then ([], some xs) else (x ∷ rest.0, rest.1)

-- The string of at most `n` characters at a place.
unfoldable pub string_at : (ℕ → ℕ) → (place n : ℕ) → List ℕ
string_at memory place zero = []
string_at memory place (suc n) =
    let rest = string_at memory (place + 1) n in
    if memory place == 0 then [] else memory place ∷ rest

-- The loop of IsCached over the children, for the rounds left.
unfoldable pub find_leaf : (fuel : ℕ) → (ℕ → File) → (name : List ℕ) → (at : ℕ) → Answer (Option ℕ)
unfolding same_name
find_leaf zero files name at = running
find_leaf (suc fuel) files name at =
    let rest = find_leaf fuel files name (files at).next in
    let found : Bool = elim (files at).name [ none ↦ false | some n ↦ same_name n name ] in
    if at == null then ok none else if found then ok (some at) else rest

-- IsCached, as the file that it finds.
unfoldable pub is_cached : (fuel : ℕ) → Cache → (dir : ℕ) → (name : List ℕ) → Answer (Option ℕ)
unfolding find_leaf
is_cached fuel c dir name =
    if dir == null then ok none else find_leaf fuel c.files name (c.files dir).leaf

-- Ext2DirectoryEntry at a place of the content.
abbrev pub entry_inode : (ℕ → ℕ) → ℕ → ℕ
entry_inode m o = m o + 256 * m (o + 1) + 65536 * m (o + 2) + 0x100_0000 * m (o + 3)

abbrev pub entry_rec_len : (ℕ → ℕ) → ℕ → ℕ
entry_rec_len m o = m (o + 4) + 256 * m (o + 5)

unfoldable pub entry_name : (ℕ → ℕ) → ℕ → List ℕ
unfolding string_at
entry_name m o = string_at m (o + 8) (m (o + 6))

-- The new child of a directory; `opened` is what the memory held.
unfoldable pub add_leaf : (directory a inum : ℕ) → (name : List ℕ) → Cache → Cache
unfolding update
add_leaf directory a inum name c =
    let leaf = (c.files directory).leaf in
    update directory (λ f. record f { leaf = a })
      (update a
        (λ f. record f {
          content = λ (i : ℕ). 0;
          inode = none;
          inum = inum;
          leaf = null;
          name = some name;
          next = leaf;
          parent = directory;
        })
        c)

module _ (volume : Volume) where
  -- The inode of a file is read if it is not there.
  unfoldable pub with_inode : ℕ → Cache → Answer (Ext2Inode × Cache)
  unfolding update
  with_inode a c = elim (c.files a).inode [
    | some inode ↦ ok (inode, c)
    | none ↦ volume.read_inode (c.files a).inum >>= λ inode.
        ok (inode, update a (λ f. record f { inode = some inode }) c)
  ]

  -- OpenFile
  unfoldable pub open_file : ℕ → Cache → Answer Cache
  unfolding with_inode
  open_file a c =
      if a == null
      then err null_parameter
      else with_inode a c >>= λ (inode, read). volume.read_file inode >>= λ content.
          ok (update a (λ f. record f { content = content; opened = true }) read)

  -- `if (file->opened == false) OpenFile(file)`
  unfoldable pub ensure_opened : ℕ → Cache → Answer Cache
  unfolding open_file
  ensure_opened a c = if (c.files a).opened then ok c else open_file a c

  -- CreateFile for the memory at `a`; `leaf` is what the memory held.
  unfoldable pub create_file : (a inum : ℕ) → Ext2Inode → Cache → Answer Cache
  unfolding update
  create_file a inum inode c =
      if a == null
      then err alloc_failed
      else ok (
          update a
            (λ f. record f {
              content = λ (i : ℕ). 0;
              inode = some inode;
              inum = inum;
              name = none;
              opened = false;
              next = null;
              parent = null;
            })
            c)

  -- ReadFileFromInode: the file at `a`.
  unfoldable pub read_file_from_inode : (a inum : ℕ) → Cache → Answer Cache
  unfolding create_file open_file
  read_file_from_inode a inum c =
      volume.read_inode inum >>= λ inode. create_file a inum inode c >>= open_file a

  -- IsDirectory for a file whose inode is there: EXT2_S_IFDIR.
  abbrev pub is_directory : Ext2Inode → Bool
  is_directory inode = inode.mode / 0x4000 % 2 == 1

  -- The loop of BrowseAndCacheDirectory over the entries from `o` on, with `left` bytes to go, for the
  -- rounds left. Without memory it answers the status of the last call before, or STATUS_FAILURE.
  unfoldable pub browse_from :
      (fuel : ℕ) → (directory o left : ℕ) → Answer (Unit {0}) → Cache → Answer (Unit {0}) × Cache
  unfolding is_cached entry_name add_leaf heap_alloc
  browse_from zero directory o left status c = (running, c)
  browse_from (suc fuel) directory o left status c =
      let content = (c.files directory).content in
      let rec_len = entry_rec_len content o in
      let name = entry_name content o in
      let go_on =
        λ (d : Cache). browse_from fuel directory (o + rec_len) (sub32 left rec_len) status d in
      elim ((left == 0) || (rec_len == 0)) [
        | true ↦ (ok tt, c)
        | false ↦
            let (text, named) = heap_alloc c in
            elim (text == null) [
              | true ↦ (status, named)
              | false ↦ elim (same_name name (dot ∷ []) || same_name name (dot ∷ dot ∷ [])) [
                | true ↦ go_on named
                | false ↦ elim (is_cached fuel named directory name) [
                  | ok (some a) ↦ go_on named
                  | ok none ↦
                      let (a, stored) = heap_alloc named in
                      elim (a == null) [
                        | true ↦ (status, stored)
                        | false ↦ go_on (add_leaf directory a (entry_inode content o) name stored)
                      ]
                  | err e ↦ (err e, named)
                  | fault ↦ (fault, named)
                  | running ↦ (running, named)
                ]
              ]
            ]
      ]

  -- The end of BrowseAndCacheDirectory: a directory is gone through.
  browse_opened :
      (fuel : ℕ)
      → (directory : ℕ) → Ext2Inode
      → Answer (Unit {0})
      → Cache
      → Answer (Unit {0}) × Cache
  unfolding browse_from
  browse_opened fuel directory inode status c =
      if is_directory inode
      then browse_from fuel directory 0 inode.size status c
      else (err not_a_directory, c)

  -- BrowseAndCacheDirectory
  unfoldable pub browse_and_cache_directory :
      (fuel : ℕ) → (directory : ℕ) → Cache → Answer (Unit {0}) × Cache
  unfolding with_inode open_file browse_opened
  browse_and_cache_directory fuel directory c =
      let was_read : Bool = elim (c.files directory).inode [ none ↦ true | some i ↦ false ] in
      let was_opened = (c.files directory).opened in
      let status : Answer (Unit {0}) = if was_read || not was_opened then ok tt else err failure in
      if directory == null then (err null_parameter, c) else elim (with_inode directory c) [
        | err e ↦ (err e, c)
        | fault ↦ (fault, c)
        | running ↦ (running, c)
        | ok (inode, read) ↦
            if was_opened
            then browse_opened fuel directory inode status read
            else elim (open_file directory read) [
              | ok opened ↦ browse_opened fuel directory inode status opened
              | err e ↦ (err e, read)
              | fault ↦ (fault, read)
              | running ↦ (running, read)
            ]
      ]

  -- A step of OpenFileFromName into the directory that a part of the path names. What
  -- BrowseAndCacheDirectory answers is not looked at, but that it does not end.
  enter : (fuel : ℕ) → (directory : ℕ) → (name : List ℕ) → Cache → Answer (ℕ × Cache)
  unfolding same_name is_cached ensure_opened browse_and_cache_directory
  enter fuel directory name c =
      if same_name name (dot ∷ dot ∷ [])
      then ok ((c.files directory).parent, c)
      else if same_name name (dot ∷ [])
      then ok (directory, c)
      else is_cached fuel c directory name >>= λ found. elim found [
        | none ↦ err file_not_found
        | some a ↦ ensure_opened a c >>= λ opened.
            let (status, browsed) = browse_and_cache_directory fuel a opened in
            elim status [
              | ok u ↦ ok (a, browsed)
              | err e ↦ ok (a, browsed)
              | fault ↦ fault
              | running ↦ running
            ]
      ]

  -- The last part of a path.
  open_last : (fuel : ℕ) → (directory : ℕ) → (name : List ℕ) → Cache → Answer (Option ℕ × Cache)
  unfolding is_cached ensure_opened
  open_last fuel directory name c = is_cached fuel c directory name >>= λ found. elim found [
    | none ↦ err file_not_found
    | some a ↦ ensure_opened a c >>= λ opened. ok (some a, opened)
  ]

  -- The loop of OpenFileFromName, for the rounds left: what is stored at `file`, if anything.
  unfoldable pub open_path :
      (rounds fuel : ℕ)
      → (directory : ℕ) → (path : List ℕ) → Option ℕ
      → Cache
      → Answer (Option ℕ × Cache)
  unfolding enter open_last split_path
  open_path zero fuel directory path file c = running
  open_path (suc rounds) fuel directory [] file c = ok (file, c)
  open_path (suc rounds) fuel directory (x ∷ xs) file c = elim (split_path (x ∷ xs)).1 [
    | none ↦ open_last fuel directory (x ∷ xs) c
    | some rest ↦ enter fuel directory (split_path (x ∷ xs)).0 c >>= λ (next, entered).
        open_path rounds fuel next rest file entered
  ]

  -- OpenFileFromName: a path begins at the root, whether it begins with '/' or not.
  unfoldable pub open_file_from_name :
      (fuel : ℕ) → (path : List ℕ) → Cache → Answer (Option ℕ × Cache)
  unfolding open_path
  open_file_from_name fuel [] c = open_path 1 fuel c.root_file [] none c
  open_file_from_name fuel (x ∷ xs) c =
      let at_root : Option ℕ = elim xs [ [] ↦ some c.root_file | y ∷ ys ↦ none ] in
      if x == slash
      then open_path (length xs + 1) fuel c.root_file xs at_root c
      else open_path (length xs + 2) fuel c.root_file (x ∷ xs) none c

  -- InitRootFile and InitRoot of FsManager.cpp, for the memory at `a`: its inode is number 2. The name of
  -- the root takes memory too.
  unfoldable pub init_root : (fuel a : ℕ) → Cache → Answer (Unit {0}) × Cache
  unfolding create_file heap_alloc browse_and_cache_directory
  init_root fuel a c = elim (volume.read_inode 2 >>= λ inode. create_file a 2 inode c) [
    | err e ↦ (err e, c)
    | fault ↦ (fault, c)
    | running ↦ (running, c)
    | ok created ↦
        let (text, stored) = heap_alloc (record created { root_file = a }) in
        if text == null
        then (err alloc_failed, stored)
        else browse_and_cache_directory fuel a
            (update a (λ f. record f { name = some (slash ∷ []); parent = a }) stored)
  ]

-- ===== src/LtFsService/File/Lookup.antt =====
-- IsCached and OpenFileFromName on the children of a directory.
use lt_micros.Base.{
  ℕ, zero, suc, ◌+◌, ◌<◌, ◌≡◌, ◌≢◌, refl, ◌∙◌, Option, none, some, List, [], ◌∷◌, Bool, true, false,
  arith, length, ◌==◌, ap,
}
use lt_micros.Base.Words.{null}
use lt_micros.KernelList.Walk.{find_first}
use lt_micros.LtFsService.{Answer, ok, err, file_not_found}
use lt_micros.LtFsService.File.{
  Volume, File, Cache, same_name, slash, split_path, find_leaf, is_cached, ensure_opened, open_last,
  open_path, open_file_from_name,
}

-- The files from `at` along `next`.
abbrev pub Leaves : (ℕ → File) → ℕ → List ℕ → Type 0
Leaves files at [] = at ≡ null
Leaves files at (a ∷ others) = (at ≡ a) × (a ≢ null) × Leaves files (files a).next others

-- StrCmp does not tell the name of a file from a string.
abbrev pub has_name : (ℕ → File) → List ℕ → ℕ → Bool
has_name files name a = elim (files a).name [ none ↦ false | some n ↦ same_name n name ]

find_leaf-find_first :
    (fuel : ℕ) (files : ℕ → File) (name : List ℕ) (at : ℕ) (others : List ℕ)
    → Leaves files at others
    → length others < fuel
    → find_leaf fuel files name at ≡ ok (find_first (has_name files name) others)
unfolding find_leaf find_first
find_leaf-find_first zero files name at others l h = absurd (omega arith)
find_leaf-find_first (suc fuel) files name at [] l h = ground arith
find_leaf-find_first (suc fuel) files name at (a ∷ others) l h =
    let rest = find_leaf-find_first fuel files name (files a).next others l.2 (omega arith) in
    rw l.0 (ground (arith, rest, l.1))

-- A path of one part.
abbrev pub NoSlash : List ℕ → Type 0
NoSlash [] = Unit {0}
NoSlash (x ∷ xs) = (x ≢ slash) × NoSlash xs

split_path-NoSlash : (path : List ℕ) → NoSlash path → split_path path ≡ (path, none)
unfolding split_path
split_path-NoSlash [] n = refl
split_path-NoSlash (x ∷ xs) n = ground (arith, split_path-NoSlash xs n.1)

-- What a path of one part leads to, among the children of the root that are open already.
module _ (volume : Volume) (fuel x : ℕ) (xs children : List ℕ) (c : Cache) (one : NoSlash (x ∷ xs))
    (root : c.root_file ≢ null) (leaves : Leaves c.files (c.files c.root_file).leaf children)
    (enough : length children < fuel) where
  abbrev pub child : Option ℕ
  child = find_first (has_name c.files (x ∷ xs)) children

  found : is_cached fuel c c.root_file (x ∷ xs) ≡ ok child
  unfolding is_cached
  found = ground (
    arith,
    find_leaf-find_first fuel c.files (x ∷ xs) (c.files c.root_file).leaf children leaves enough,
  )

  last_part :
      open_file_from_name volume fuel (x ∷ xs) c ≡ open_last volume fuel c.root_file (x ∷ xs) c
  unfolding open_file_from_name open_path
  last_part =
      let plain : x == slash ≡ false = ground (arith, one.0) in
      let rounds : length xs + 2 ≡ suc (length xs + 1) = omega arith in
      rw (plain, open_file_from_name)
        (rw (rounds, open_path) (rw (split_path-NoSlash (x ∷ xs) one, open_path) refl))

  absolute :
      open_file_from_name volume fuel (slash ∷ x ∷ xs) c
      ≡ open_last volume fuel c.root_file (x ∷ xs) c
  unfolding open_file_from_name open_path
  absolute =
      let rounds : length (x ∷ xs) + 1 ≡ suc (length xs + 1) = omega arith in
      rw (rounds, open_file_from_name) (rw (split_path-NoSlash (x ∷ xs) one, open_path) refl)

  open_last-child :
      (o : Option ℕ)
      → child ≡ o
      → ((a : ℕ) → child ≡ some a → (c.files a).opened ≡ true)
      → open_last volume fuel c.root_file (x ∷ xs) c
        ≡ elim o [ none ↦ err file_not_found | some a ↦ ok (some a, c) ]
  unfolding open_last ensure_opened
  open_last-child none e opened = rw (found ∙ ap ok e, open_last) refl
  open_last-child (some a) e opened =
      rw (found ∙ ap ok e, open_last) (rw (opened a e, ensure_opened) refl)

  -- OpenFileFromName on a path of one part, with or without a '/' in front, and with fuel for the
  -- children of the root: the first child of that name, if it is open already, is answered, and nothing
  -- changes; without one the status is STATUS_FILE_NOT_FOUND.
  pub open_file_from_name-find_first :
      ((a : ℕ) → child ≡ some a → (c.files a).opened ≡ true)
      → let result : Answer (Option ℕ × Cache) = elim child [
        | none ↦ err file_not_found
        | some a ↦ ok (some a, c)
      ] in
        (open_file_from_name volume fuel (x ∷ xs) c ≡ result)
        × (open_file_from_name volume fuel (slash ∷ x ∷ xs) c ≡ result)
  open_file_from_name-find_first opened =
      let last = open_last-child child refl opened in (last_part ∙ last, absolute ∙ last)

-- ===== src/Vad.antt =====
-- kernel/mem/Vad.hpp and Vad.cpp: the descriptors of a process's address space. A chain of
-- descriptors is the list of them from `this` along `next`; `previous` is written and read by
-- nothing. A pointer to a descriptor of the chain is its place in the list. Whether HeapAlloc
-- succeeds is an argument. Out-pointers, which are addresses of local variables in every caller,
-- become results.
pub mod Operations
pub mod Lookup
pub mod Reserve
pub mod Frames
pub mod Split
pub mod Allocate
pub mod Bump
use lt_micros.Base.{
  ℕ, zero, suc, ◌+◌, ◌-◌, ◌*◌, ◌/◌, Option, none, some, List, [], ◌∷◌, Bool, true, false, not, ◌&&◌,
  ◌||◌, if◌then◌else◌, ◌==◌, ltb, leb,
}
use lt_micros.Base.Words.{null, page_size, add32, sub32, mul32}
use lt_micros.Base.Status.{
  KeStatus, failure, not_found, invalid_parameter, null_parameter, alloc_failed,
  physical_memory_full, Run, ok, err, fault, running,
}
use lt_micros.Mapper.{Mapper}

pub record Vad : Type 0 where
  pub base_address : ℕ
  pub limit_address : ℕ
  pub size : ℕ
  pub free : Bool

abbrev pub vad_minimum_delta : ℕ
vad_minimum_delta = page_size

-- Vad::Create
unfoldable pub create : Bool → ℕ → ℕ → Bool → Run Vad
create allocated base_address size free =
    if base_address == null
    then err null_parameter
    else if size == 0
    then err invalid_parameter
    else if not allocated
    then err alloc_failed
    else ok (record {
      base_address = base_address;
      limit_address = add32 base_address size;
      size = size;
      free = free;
    })

-- The loop of LookForVadFromAddress, with the place of the descriptor that it looks at.
unfoldable pub vad_from : ℕ → ℕ → List Vad → Run ℕ
vad_from i address [] = err not_found
vad_from i address (v ∷ vs) =
    let rest = vad_from (i + 1) address vs in
    if leb v.base_address address && ltb address v.limit_address then ok i else rest

-- LookForVadFromAddress
unfoldable pub look_for_vad_from_address : ℕ → List Vad → Run ℕ
unfolding vad_from
look_for_vad_from_address address chain =
    if address == null then err null_parameter else vad_from 0 address chain

free_from : ℕ → ℕ → List Vad → Run ℕ
free_from i size [] = err not_found
free_from i size (v ∷ vs) =
    let rest = free_from (i + 1) size vs in if ltb v.size size || not v.free then rest else ok i

-- LookForFreeVadOfMinimumSize
unfoldable pub look_for_free_vad : ℕ → List Vad → Run ℕ
unfolding free_from
look_for_free_vad size chain = if size == 0 then err invalid_parameter else free_from 0 size chain

-- The loop of LookForFreeVadAtAddressOfMinimumSize: the body on the descriptor at `i`; the loop
-- goes on while the next one is too small or in use, and otherwise settles on it.
free_at_from : ℕ → ℕ → ℕ → List Vad → Run ℕ
free_at_from i address size [] = err not_found
free_at_from i address size (v ∷ []) =
    if leb v.base_address address && ltb address v.limit_address
    then if not v.free || ltb (sub32 v.limit_address address) size then err not_found else ok i
    else err not_found
free_at_from i address size (v ∷ w ∷ vs) =
    let rest = free_at_from (i + 1) address size (w ∷ vs) in
    if leb v.base_address address && ltb address v.limit_address
    then if not v.free || ltb (sub32 v.limit_address address) size then err not_found else ok i
    else if ltb w.size size || not w.free
    then rest
    else ok (i + 1)

-- LookForFreeVadAtAddressOfMinimumSize
unfoldable pub look_for_free_vad_at : ℕ → ℕ → List Vad → Run ℕ
unfolding free_at_from
look_for_free_vad_at address size chain =
    if address == null
    then err null_parameter
    else if size == 0
    then err invalid_parameter
    else free_at_from 0 address size chain

-- `while (a > b) a -= b; return (a > 0) ? 1 : 0;` on fuel.
local_mod_loop : ℕ → ℕ → ℕ → ℕ
local_mod_loop zero a b = 0
local_mod_loop (suc fuel) a b =
    let rest = local_mod_loop fuel (a - b) b in if ltb b a then rest else if ltb 0 a then 1 else 0

-- _local_mod of Vad.cpp; `a` rounds are enough for a positive `b`.
unfoldable pub local_mod : ℕ → ℕ → ℕ
unfolding local_mod_loop
local_mod a b = local_mod_loop (a + 1) a b

-- `nbPages` of Split and SplitAtAddress.
unfoldable pub pages_for : ℕ → ℕ
unfolding local_mod
pages_for size = if ltb 0 (local_mod size page_size) then size / page_size + 1 else size / page_size

split_with : Vad → ℕ → Run Vad → List Vad → Run (Unit {0}) × List Vad
split_with v bytes (ok new) chain =
    (ok tt, record v { limit_address = add32 v.base_address bytes; size = bytes } ∷ new ∷ [])
split_with v bytes (err e) chain = (err e, chain)
split_with v bytes fault chain = (fault, chain)
split_with v bytes running chain = (running, chain)

-- Vad::Split on the head of a chain. The new descriptor's `next` is null, and replaces the chain
-- behind the head.
unfoldable pub split : Bool → ℕ → List Vad → Run (Unit {0}) × List Vad
unfolding split_with pages_for create
split allocated size [] = (fault, [])
split allocated size (v ∷ vs) =
    if size == 0
    then (err invalid_parameter, v ∷ vs)
    else if ltb v.size size
    then (err invalid_parameter, v ∷ vs)
    else if ltb (sub32 v.size size) vad_minimum_delta
    then (err invalid_parameter, v ∷ vs)
    else let bytes = mul32 (pages_for size) page_size in
      split_with v bytes (create allocated (add32 v.base_address bytes) (sub32 v.size bytes) true)
        (v ∷ vs)

keep_front : Vad → Run (Unit {0}) × List Vad → Run (Unit {0}) × List Vad
keep_front v (r, chain) = (r, v ∷ chain)

-- The second block of SplitAtAddress is in the chain: split it if it is too large.
split_second : Bool → ℕ → Vad → Run Vad → ℕ → List Vad → Run (Unit {0}) × List Vad
unfolding keep_front split
split_second allocated size v (ok new) second vs =
    keep_front
      (record v { limit_address = sub32 v.limit_address second; size = sub32 v.size second })
      (if ltb vad_minimum_delta (sub32 new.size size)
        then split allocated size (new ∷ vs)
        else (ok tt, new ∷ vs))
split_second allocated size v (err e) second vs = (err e, v ∷ vs)
split_second allocated size v fault second vs = (fault, v ∷ vs)
split_second allocated size v running second vs = (running, v ∷ vs)

-- Vad::SplitAtAddress; the two flags are the outcomes of its two allocations.
unfoldable pub split_at_address : Bool → Bool → ℕ → ℕ → List Vad → Run (Unit {0}) × List Vad
unfolding split_second
split_at_address first then_split address size [] = (fault, [])
split_at_address first then_split address size (v ∷ vs) =
    if address == null
    then (err null_parameter, v ∷ vs)
    else if size == 0
    then (err invalid_parameter, v ∷ vs)
    else if ltb v.size size
    then (err invalid_parameter, v ∷ vs)
    else if ltb (sub32 v.size size) vad_minimum_delta
    then (err invalid_parameter, v ∷ vs)
    else if v.base_address == address
    then split first size (v ∷ vs)
    else let second = sub32 v.limit_address address in
      if ltb second size
      then (err failure, v ∷ vs)
      else split_second then_split size v (create first address second true) second vs

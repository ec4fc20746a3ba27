-- ===== src/Vad/Operations.antt =====
-- ReservePages, Allocate and AllocateAtAddress of kernel/mem/Vad.cpp, over a machine.
use lt_micros.Base.{
  ℕ, zero, suc, ◌+◌, Option, none, some, List, [], ◌∷◌, Bool, true, false, not, ◌&&◌, ◌||◌,
  if◌then◌else◌, ◌==◌, ltb, get_elem?,
}
use lt_micros.Base.Words.{null, page_size, add32, sub32}
use lt_micros.Base.Status.{
  invalid_parameter, null_parameter, physical_memory_full, Run, ok, err, fault, running,
}
use lt_micros.Mapper.{Mapper}
use lt_micros.Vad.{
  Vad, vad_minimum_delta, look_for_free_vad, look_for_free_vad_at, split, split_at_address,
}

-- PAGE_WRITEABLE | PAGE_NON_PRIVILEGED_ACCESS, and the same with PAGE_PRESENT.
abbrev pub flags_absent : ℕ
flags_absent = 6

abbrev pub flags_present : ℕ
flags_present = 7

-- An operation on the descriptors from one of them on.
abbrev pub ChainOp : Type 0
ChainOp = List Vad → Run (Unit {0}) × List Vad

-- `descriptor->operation()` for the descriptor at a place of the chain.
unfoldable pub apply_at : ℕ → ChainOp → ChainOp
apply_at zero op chain = op chain
apply_at (suc i) op [] = (fault, [])
apply_at (suc i) op (v ∷ vs) = ((apply_at i op vs).0, v ∷ (apply_at i op vs).1)

-- `this->free = false` at a place of the chain.
unfoldable pub set_used : ℕ → List Vad → List Vad
set_used i [] = []
set_used zero (v ∷ vs) = record v { free = false } ∷ vs
set_used (suc i) (v ∷ vs) = v ∷ set_used i vs

-- The outcome of an allocation: the descriptor's place, the chain, and the machine.
pub record Outcome (M : Type 0) : Type 0 where
  pub result : Run ℕ
  pub chain : List Vad
  pub machine : M

abbrev pub outcome : {M : Type 0} → Run ℕ → List Vad → M → Outcome M
outcome r c m = record { result = r; chain = c; machine = m }

module _ (env : Mapper) where
  open env use {Machine, get_free_page, add_page, current_directory, set_directory}

  -- The body of the loop of ReservePages on the page at `v_addr`: `none` when GetFreePage answers
  -- null.
  unfoldable pub reserve_page : ℕ → Bool → ℕ → Machine → Option Machine
  reserve_page directory true v_addr m =
      if (get_free_page m).0 == null
      then none
      else some (add_page v_addr (get_free_page m).0 flags_present directory (get_free_page m).1)
  reserve_page directory false v_addr m = some (add_page v_addr 0 flags_absent directory m)

  -- The loop of ReservePages on fuel. On a failure the page directory stays switched.
  unfoldable pub reserve_from : ℕ → ℕ → Bool → ℕ → ℕ → Machine → Run (Unit {0}) × Machine
  reserve_from zero directory physical limit v_addr m = (running, m)
  reserve_from (suc fuel) directory physical limit v_addr m = elim (ltb v_addr limit) [
    | false ↦ (ok tt, m)
    | true ↦ elim (reserve_page directory physical v_addr m) [
      | none ↦ (err physical_memory_full, (get_free_page m).1)
      | some m' ↦ reserve_from fuel directory physical limit (add32 v_addr page_size) m'
    ]
  ]

  restore : ℕ → Run (Unit {0}) × Machine → Run (Unit {0}) × Machine
  restore saved (ok u, m) = (ok u, set_directory saved m)
  restore saved (r, m) = (r, m)

  -- Vad::ReservePages; the caller marks the descriptor as used on success.
  unfoldable pub reserve_pages : ℕ → Vad → ℕ → Bool → Machine → Run (Unit {0}) × Machine
  unfolding reserve_from restore
  reserve_pages fuel v directory physical m = restore (current_directory m) (
      reserve_from fuel directory physical v.limit_address v.base_address
        (set_directory directory m))

  finish : ℕ → List Vad → Run (Unit {0}) × Machine → Outcome Machine
  finish i chain (ok u, m) = outcome (ok i) (set_used i chain) m
  finish i chain (err e, m) = outcome (err e) chain m
  finish i chain (fault, m) = outcome fault chain m
  finish i chain (running, m) = outcome running chain m

  -- The end of both allocations: reserve the descriptor at place `i`.
  unfoldable pub reserve_at : ℕ → ℕ → ℕ → Bool → List Vad → Machine → Outcome Machine
  unfolding finish
  reserve_at fuel i directory physical chain m = elim (get_elem? chain i) [
    | none ↦ outcome fault chain m
    | some v ↦ finish i chain (reserve_pages fuel v directory physical m)
  ]

  then_reserve : ℕ → ℕ → ℕ → Bool → Machine → Run (Unit {0}) × List Vad → Outcome Machine
  unfolding reserve_at
  then_reserve fuel i directory physical m (ok u, chain) =
      reserve_at fuel i directory physical chain m
  then_reserve fuel i directory physical m (err e, chain) = outcome (err e) chain m
  then_reserve fuel i directory physical m (fault, chain) = outcome fault chain m
  then_reserve fuel i directory physical m (running, chain) = outcome running chain m

  -- Allocate, once the free descriptor `v` at place `i` is found.
  unfoldable pub allocate_in :
      ℕ → Bool → ℕ → ℕ → Bool → List Vad → Machine → ℕ → Vad → Outcome Machine
  unfolding then_reserve
  allocate_in fuel allocated size directory physical chain m i v =
      then_reserve fuel i directory physical m (
        if ltb vad_minimum_delta (sub32 v.size size)
        then apply_at i (split allocated size) chain
        else (ok tt, chain))

  -- The descriptor that a lookup found, or the lookup's failure.
  abbrev with_vad : List Vad → Machine → Run ℕ → (ℕ → Vad → Outcome Machine) → Outcome Machine
  with_vad chain m (ok i) k = elim (get_elem? chain i) [
    | none ↦ outcome fault chain m
    | some v ↦ k i v
  ]
  with_vad chain m (err e) k = outcome (err e) chain m
  with_vad chain m fault k = outcome fault chain m
  with_vad chain m running k = outcome running chain m

  -- Vad::Allocate
  unfoldable pub allocate : ℕ → Bool → ℕ → ℕ → Bool → List Vad → Machine → Outcome Machine
  unfolding allocate_in
  allocate fuel allocated size directory physical chain m =
      if size == 0
      then outcome (err invalid_parameter) chain m
      else if directory == null
      then outcome (err null_parameter) chain m
      else with_vad chain m (look_for_free_vad size chain)
          (allocate_in fuel allocated size directory physical chain m)

  -- AllocateAtAddress behind its split: the descriptor at `address` is the next one if the found one
  -- starts elsewhere.
  reserve_split : ℕ → ℕ → ℕ → ℕ → Bool → Machine → ℕ → Run (Unit {0}) × List Vad → Outcome Machine
  unfolding reserve_at
  reserve_split fuel address base directory physical m i (ok u, chain) =
      reserve_at fuel (if base == address then i else i + 1) directory physical chain m
  reserve_split fuel address base directory physical m i (err e, chain) = outcome (err e) chain m
  reserve_split fuel address base directory physical m i (fault, chain) = outcome fault chain m
  reserve_split fuel address base directory physical m i (running, chain) = outcome running chain m

  allocate_at_in :
      ℕ → Bool → Bool → ℕ → ℕ → ℕ → Bool → List Vad → Machine → ℕ → Vad → Outcome Machine
  unfolding reserve_split
  allocate_at_in fuel first then_split address size directory physical chain m i v =
      if not (v.base_address == address)
        || (v.base_address == address && ltb vad_minimum_delta (sub32 v.size size))
      then reserve_split fuel address v.base_address directory physical m i
          (apply_at i (split_at_address first then_split address size) chain)
      else reserve_at fuel i directory physical chain m

  -- Vad::AllocateAtAddress
  unfoldable pub allocate_at_address :
      ℕ → Bool → Bool → ℕ → ℕ → ℕ → Bool → List Vad → Machine → Outcome Machine
  unfolding allocate_at_in
  allocate_at_address fuel first then_split address size directory physical chain m =
      if address == null
      then outcome (err null_parameter) chain m
      else if size == 0
      then outcome (err invalid_parameter) chain m
      else if directory == null
      then outcome (err null_parameter) chain m
      else with_vad chain m (look_for_free_vad_at address size chain)
          (allocate_at_in fuel first then_split address size directory physical chain m)

-- ===== src/KernelList.antt =====
-- kernel/lib/List.hpp and List.cpp: the linked list that most kernel tables use. A `List *` is its
-- chain of cells along `next`, with the `data` pointer of each; a null `data` is `none`, and an
-- empty list is one cell with a null `data`. `prev` is written by ListPush and read by nothing.
-- Whether HeapAlloc finds memory for a cell is an argument.
pub mod Contents
pub mod Walk
use lt_micros.Base.{
  ℕ, zero, suc, Option, none, some, List, [], ◌∷◌, ◌++◌, Bool, true, false, ◌&&◌, if◌then◌else◌,
}
use lt_micros.Base.Status.{KeStatus, success, list_stop_iterating, Run, ok, fault}

-- struct ListElem, and the cells behind it.
pub record KernelList {ℓ} (A : Type ℓ) : Type ℓ where
  pub head : Option A
  pub rest : List (Option A)

pub data Event {ℓ} (A : Type ℓ) : Type ℓ where
  cleaned : A → Event A
  freed : Event A

module _ {ℓ} {A : Type ℓ} where
  -- ListCreate, when HeapAlloc succeeds.
  abbrev pub create : KernelList A
  create = record { head = none; rest = [] }

  abbrev pub is_none : Option A → Bool
  is_none none = true
  is_none (some a) = false

  abbrev pub is_nil : List (Option A) → Bool
  is_nil [] = true
  is_nil (x ∷ xs) = false

  -- ListPush. With no memory for the new cell the list stays as it is.
  unfoldable pub push : Bool → KernelList A → Option A → KernelList A
  push allocated l d =
      if is_none l.head
      then record l { head = d }
      else if allocated
      then record l { rest = l.rest ++ d ∷ [] }
      else l

  -- ListGet: the loop, from a cell with its data `d` and the cells behind it. The loop steps to
  -- `list->next` and then reads `list->next->next`, which faults behind the last cell.
  unfoldable pub get_from : ℕ → Option A → List (Option A) → Run (Option A)
  get_from zero d rest = ok d
  get_from (suc index) d [] = fault
  get_from (suc zero) d (x ∷ []) = ok x
  get_from (suc (suc index)) d (x ∷ []) = ok none
  get_from (suc index) d (x ∷ y ∷ rest) = get_from index x (y ∷ rest)

  unfoldable pub get : KernelList A → ℕ → Run (Option A)
  unfolding get_from
  get l index = get_from index l.head l.rest

  -- ListTop
  unfoldable pub top : KernelList A → Option A
  top l = l.head

  pop_from : A → List (Option A) → Option A × KernelList A
  pop_from a [] = (some a, record { head = none; rest = [] })
  pop_from a (x ∷ xs) = (some a, record { head = x; rest = xs })

  -- ListPop: the popped data, and the list that `*list` is afterwards.
  unfoldable pub pop : KernelList A → Option A × KernelList A
  unfolding pop_from
  pop l = elim l.head [ none ↦ (none, l) | some a ↦ pop_from a l.rest ]

  -- ListIsEmpty
  unfoldable pub is_empty : KernelList A → Bool
  is_empty l = is_none l.head && is_nil l.rest

  -- The loop of ListDestroyEx: what is cleaned and freed, in order.
  unfoldable pub destroy_cells : Bool → List (Option A) → List (Event A)
  destroy_cells cleaner [] = []
  destroy_cells cleaner (none ∷ xs) = freed ∷ destroy_cells cleaner xs
  destroy_cells true (some a ∷ xs) = cleaned a ∷ freed ∷ destroy_cells true xs
  destroy_cells false (some a ∷ xs) = freed ∷ destroy_cells false xs

  -- ListDestroyEx; ListDestroy is the call with no cleaner.
  unfoldable pub destroy : Bool → KernelList A → List (Event A)
  unfolding destroy_cells
  destroy cleaner l = destroy_cells cleaner (l.head ∷ l.rest)

  module _ {κ} {C : Type κ} (callback : C → Option A → KeStatus × C) where
    -- The loop of ListEnumerate. `status` is the callback's answer on a cell.
    unfoldable pub enumerate_cells : C → List (Option A) → KeStatus × C
    enumerate_cells c [] = (success, c)
    enumerate_cells c (x ∷ xs) =
        let rest = enumerate_cells (callback c x).1 xs in
        elim (callback c x).0 [
          | success ↦ rest
          | list_stop_iterating ↦ (success, (callback c x).1)
          | status ↦ (status, (callback c x).1)
        ]

    -- ListEnumerate; `C` is what the callback reads and writes through its context pointer.
    unfoldable pub enumerate : C → KernelList A → KeStatus × C
    unfolding enumerate_cells is_empty
    enumerate c l = if is_empty l then (success, c) else enumerate_cells c (l.head ∷ l.rest)

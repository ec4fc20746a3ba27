-- ===== src/HandleManager.antt =====
-- kernel/handle/HandleManager.h and HandleManager.cpp: numbers that stand for kernel objects. An
-- object is its address; `out_handle` is the address that the caller gives for the result.
-- `s_NextHandleValue` is a field of the state.
pub mod Search
pub mod Invariant
pub mod Laws
use lt_micros.Base.{ℕ, ◌+◌, Option, none, some, Bool, true, false, if◌then◌else◌, ◌==◌}
use lt_micros.Base.Words.{null, add32}
use lt_micros.Base.Status.{
  KeStatus, success, not_found, invalid_parameter, null_parameter, alloc_failed,
  handle_already_exist, Run, ok, err, fault, running, ◌>>◌, reject,
}
use lt_micros.KernelList.{KernelList, create, push, enumerate}
use lt_micros.KernelList.Walk.{stop_at}

pub data HandleType : Type 0 where
  process_handle handle_type_max : HandleType

pub record HandleObject : Type 0 where
  pub handle : ℕ
  pub object : ℕ

pub record HandleManager : Type 0 where
  pub handles : KernelList HandleObject
  pub next_value : ℕ

-- Whether the two calls of HeapAlloc succeed: for the handle object and for its list cell.
pub record Memory : Type 0 where
  pub for_object : Bool
  pub for_cell : Bool

abbrev pub plenty : Memory
plenty = record { for_object = true; for_cell = true }

-- HandleManager::Init, and the initial value of s_NextHandleValue.
abbrev pub init : HandleManager
init = record { handles = create; next_value = 1 }

abbrev is_invalid : HandleType → Bool
is_invalid process_handle = false
is_invalid handle_type_max = true

-- The three checks that every operation begins with.
abbrev check : HandleType → ℕ → ℕ → Run (Unit {0})
check type object out_handle =
    reject (is_invalid type) invalid_parameter
    >> (reject (object == null) null_parameter >> reject (out_handle == null) null_parameter)

-- _FindHandleCallback; its context is the handle object found so far.
abbrev pub find_handle_callback :
    ℕ → Option HandleObject → Option HandleObject → KeStatus × Option HandleObject
find_handle_callback object = stop_at λ h. h.object == object

found_handle : KeStatus × Option HandleObject → Run ℕ
found_handle (success, none) = err not_found
found_handle (success, some h) = ok h.handle
found_handle (status, c) = err status

-- FindFromObjectPtr
unfoldable pub find_from_object_ptr : HandleManager → HandleType → ℕ → ℕ → Run ℕ
unfolding found_handle
find_from_object_ptr m type object out_handle =
    check type object out_handle
    >> found_handle (enumerate (find_handle_callback object) none m.handles)

abbrev after_check {ℓ} :
    {A : Type ℓ} → HandleManager → Run (Unit {0}) → Run A × HandleManager → Run A × HandleManager
after_check m (ok u) r = r
after_check m (err e) r = (err e, m)
after_check m fault r = (fault, m)
after_check m running r = (running, m)

-- _CreateHandle
unfoldable pub create_unchecked :
    HandleManager → Memory → HandleType → ℕ → ℕ → Run ℕ × HandleManager
create_unchecked m memory type object out_handle = after_check m (check type object out_handle) (
    if memory.for_object
    then (
      ok m.next_value,
      record {
        handles =
            push memory.for_cell m.handles
              (some (record { handle = m.next_value; object = object }));
        next_value = add32 m.next_value 1;
      },
    )
    else (err alloc_failed, m))

create_unless_found : HandleManager → Memory → HandleType → ℕ → ℕ → Run ℕ → Run ℕ × HandleManager
unfolding create_unchecked
create_unless_found m memory type object out_handle (err not_found) =
    create_unchecked m memory type object out_handle
create_unless_found m memory type object out_handle (err e) = (err e, m)
create_unless_found m memory type object out_handle (ok h) = (err handle_already_exist, m)
create_unless_found m memory type object out_handle fault = (fault, m)
create_unless_found m memory type object out_handle running = (running, m)

-- CreateHandle
unfoldable pub create_handle : HandleManager → Memory → HandleType → ℕ → ℕ → Run ℕ × HandleManager
unfolding create_unless_found
create_handle m memory type object out_handle = after_check m (check type object out_handle) (
    create_unless_found m memory type object out_handle
      (find_from_object_ptr m type object out_handle))

or_create : HandleManager → Memory → HandleType → ℕ → ℕ → Run ℕ → Run ℕ × HandleManager
or_create m memory type object out_handle (err not_found) =
    create_handle m memory type object out_handle
or_create m memory type object out_handle r = (r, m)

-- FindOrCreate
unfoldable pub find_or_create : HandleManager → Memory → HandleType → ℕ → ℕ → Run ℕ × HandleManager
unfolding or_create
find_or_create m memory type object out_handle =
    after_check m (check type object out_handle)
      (or_create m memory type object out_handle (find_from_object_ptr m type object out_handle))

-- ===== src/HandleManager/Search.antt =====
-- The lookup of a handle by its object, as a search of the table's entries.
use lt_micros.Base.{ℕ, ◌≡◌, ◌≢◌, Option, none, some, arith, ◌==◌}
use lt_micros.Base.Words.{null}
use lt_micros.Base.Status.{Run, ok, err, not_found, handle_already_exist}
use lt_micros.KernelList.Contents.{contents, IsFilled}
use lt_micros.KernelList.Walk.{find_first, enumerate-find_first}
use lt_micros.HandleManager.{
  HandleManager, HandleObject, Memory, process_handle, find_from_object_ptr, create_handle,
  create_unchecked, find_or_create,
}

-- The entry of an object in the table.
abbrev pub entry : HandleManager → ℕ → Option HandleObject
entry m object = find_first (λ h. h.object == object) (contents m.handles)

abbrev pub answer : Option HandleObject → Run ℕ
answer none = err not_found
answer (some h) = ok h.handle

module _ (m : HandleManager) (object out : ℕ) (filled : IsFilled m.handles) (real : object ≢ null)
    (out_real : out ≢ null) where
  pub find_from_object_ptr-entry :
      find_from_object_ptr m process_handle object out ≡ answer (entry m object)
  unfolding find_from_object_ptr
  find_from_object_ptr-entry =
      ground
        (arith, enumerate-find_first (λ (h : HandleObject). h.object == object) m.handles filled)

  pub create_handle_old :
      (memory : Memory) (h : HandleObject)
      → entry m object ≡ some h
      → create_handle m memory process_handle object out ≡ (err handle_already_exist, m)
  unfolding create_handle
  create_handle_old memory h e = ground (arith, find_from_object_ptr-entry)

  pub create_handle_new :
      (memory : Memory)
      → entry m object ≡ none
      → create_handle m memory process_handle object out
        ≡ create_unchecked m memory process_handle object out
  unfolding create_handle
  create_handle_new memory e = ground (arith, find_from_object_ptr-entry)

  pub find_or_create_old :
      (memory : Memory) (h : HandleObject)
      → entry m object ≡ some h
      → find_or_create m memory process_handle object out ≡ (ok h.handle, m)
  unfolding find_or_create
  find_or_create_old memory h e = ground (arith, find_from_object_ptr-entry)

  pub find_or_create_new :
      (memory : Memory)
      → entry m object ≡ none
      → find_or_create m memory process_handle object out
        ≡ create_unchecked m memory process_handle object out
  unfolding find_or_create
  find_or_create_new memory e =
      ground (arith, find_from_object_ptr-entry, create_handle_new memory e)

-- ===== src/HandleManager/Laws.antt =====
-- What the callers of the handle manager rely on.
use lt_micros.Base.{
  ℕ, sym, ◌↔◌, ◌+◌, ◌<◌, ◌≡◌, ◌≢◌, refl, ◌∙◌, ap, Option, none, some, [], ◌∷◌, arith, ◌==◌, inl,
  inr, Option-cases, ==_refl,
}
use lt_micros.Base.Words.{null, u32_mod}
use lt_micros.Base.Status.{ok}
use lt_micros.KernelList.Contents.{contents}
use lt_micros.KernelList.Walk.{find_first, find_first-append, find_first-append_miss}
use lt_micros.HandleManager.{
  HandleManager, HandleObject, plenty, process_handle, create_unchecked, find_or_create,
  find_from_object_ptr,
}
use lt_micros.HandleManager.Search.{
  entry, find_or_create_old, find_or_create_new, find_from_object_ptr-entry, answer,
}
use lt_micros.HandleManager.Invariant.{
  IsValid, Ranged-injective, find_first-Ranged, new_entry, contents_new, find_or_create-IsValid,
}

entry_new :
    (handle object : ℕ)
    → find_first (λ h. h.object == object) (new_entry handle object ∷ [])
      ≡ some (new_entry handle object)
unfolding find_first
entry_new handle object = rw (==_refl object) refl

-- The entry that FindOrCreate answers with, given the next handle and what the table has.
abbrev pub granted : ℕ → ℕ → Option HandleObject → HandleObject
granted next object none = new_entry next object
granted next object (some h) = h

module _ (m : HandleManager) (object out : ℕ) (valid : IsValid m) (real : object ≢ null)
    (out_real : out ≢ null) (room : m.next_value + 1 < u32_mod) where
  found_in :
      (h : HandleObject)
      → entry m object ≡ some h
      → granted m.next_value object (entry m object) ≡ h
  found_in h e = rw e refl

  -- What the table has for an object after the call.
  entry_after :
      entry (find_or_create m plenty process_handle object out).1 object
      ≡ some (granted m.next_value object (entry m object))
  entry_after = elim (Option-cases (entry m object)) [
    | inl e ↦
        rw
          (
            find_or_create_new m object out valid.filled real out_real plenty e,
            contents_new m object out valid real out_real room e,
            e,
          )
          (find_first-append _ (contents m.handles) _ e ∙ entry_new m.next_value object)
    | inr (h, e) ↦
        rw (find_or_create_old m object out valid.filled real out_real plenty h e, e) refl
  ]

  answer_now :
      (find_or_create m plenty process_handle object out).0
      ≡ ok (granted m.next_value object (entry m object)).handle
  unfolding create_unchecked
  answer_now = elim (Option-cases (entry m object)) [
    | inl e ↦
        rw (find_or_create_new m object out valid.filled real out_real plenty e, e) (ground arith)
    | inr (h, e) ↦
        rw (find_or_create_old m object out valid.filled real out_real plenty h e, e) refl
  ]

  -- Given memory, FindOrCreate always succeeds, a lookup in the new table finds the same handle,
  -- and a second call answers it again and changes nothing.
  pub find_or_create_stable :
      let h = (granted m.next_value object (entry m object)).handle in
      let r = find_or_create m plenty process_handle object out in
      (r.0 ≡ ok h)
      × (find_from_object_ptr r.1 process_handle object out ≡ ok h)
      × (find_or_create r.1 plenty process_handle object out ≡ (ok h, r.1))
  find_or_create_stable =
      let r = find_or_create m plenty process_handle object out in
      let v = find_or_create-IsValid m object out valid real out_real room in
      (
        answer_now,
        find_from_object_ptr-entry r.1 object out v.filled real out_real ∙ ap answer entry_after,
        find_or_create_old r.1 object out v.filled real out_real plenty _ entry_after,
      )

  -- The handles of all other objects stay as they are.
  pub find_or_create_other :
      (b : ℕ)
      → b ≢ null
      → b ≢ object
      → find_from_object_ptr
          (find_or_create m plenty process_handle object out).1
          process_handle
          b
          out
        ≡ find_from_object_ptr m process_handle b out
  find_or_create_other b b_real ne =
      let r = find_or_create m plenty process_handle object out in
      let v = find_or_create-IsValid m object out valid real out_real room in
      let same : entry r.1 b ≡ entry m b = elim (Option-cases (entry m object)) [
        | inl e ↦
            rw
              (
                find_or_create_new m object out valid.filled real out_real plenty e,
                contents_new m object out valid real out_real room e,
              )
              (find_first-append_miss (λ (h : HandleObject). h.object == b) (contents m.handles)
                (new_entry m.next_value object) (ground arith))
        | inr (h, e) ↦
            rw (find_or_create_old m object out valid.filled real out_real plenty h e) refl
      ] in
      find_from_object_ptr-entry r.1 b out v.filled b_real out_real
      ∙ ap answer same
      ∙ sym (find_from_object_ptr-entry m b out valid.filled b_real out_real)

entry_of :
    (m : HandleManager) (object out h : ℕ)
    → IsValid m
    → object ≢ null
    → out ≢ null
    → find_from_object_ptr m process_handle object out ≡ ok h
    → (x : HandleObject) × (entry m object ≡ some x) × (x.handle ≡ h)
entry_of m object out h valid real out_real e =
    let f = find_from_object_ptr-entry m object out valid.filled real out_real in
    elim (Option-cases (entry m object)) [
      | inl n ↦ absurd (ground (arith, f))
      | inr (x, s) ↦ (x, s, ground (arith, f))
    ]

-- A handle stands for one object, and is never INVALID_HANDLE_VALUE.
pub handle-injective :
    (m : HandleManager) (a b out h k : ℕ)
    → IsValid m
    → a ≢ null
    → b ≢ null
    → out ≢ null
    → find_from_object_ptr m process_handle a out ≡ ok h
    → find_from_object_ptr m process_handle b out ≡ ok k
    → ((h ≡ k) ↔ (a ≡ b)) × (h ≢ 0)
handle-injective m a b out h k valid ra rb ro ea eb =
    let (x, sx, hx) = entry_of m a out h valid ra ro ea in
    let (y, sy, hy) = entry_of m b out k valid rb ro eb in
    (
      (
        λ same.
            Ranged-injective 1 m.next_value a b (contents m.handles) x y valid.ranged sx sy
              (omega arith),
        λ same. ground (arith, ap (λ o. find_from_object_ptr m process_handle o out) same),
      ),
      λ zero_handle. omega (
        arith,
        find_first-Ranged (λ (z : HandleObject). z.object == a) 1 m.next_value (contents m.handles)
            x valid.ranged sx,
      ),
    )

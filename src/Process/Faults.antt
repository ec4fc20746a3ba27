-- ===== src/Process/Faults.antt =====
-- ResolvePageFault of kernel/arch/x86/Process.cpp: which faults are resolved, and what is mapped then.
use mathlib.Core.Path.{subst}
use lt_micros.Base.{
  ℕ, ◌*◌, ◌≤◌, ◌<◌, ◌≡◌, ◌≢◌, ◌∙◌, ◌==◌, ◌⊎◌, ◌∷◌, ◌||◌, inl, inr, true, false, arith, Bool-cases,
  refl, ap,
}
use lt_micros.Base.Words.{null}
use lt_micros.Base.Status.{Run, ok, err, not_found, unexpected}
use lt_micros.Mapper.{Mapper, Mapping, Recorded, recorder}
use lt_micros.Pmm.Bitmap.{is_used}
use lt_micros.Pmm.Search.{FirstFree, FirstFree-cases}
use lt_micros.Pmm.Laws.{get_free_page_full, get_free_page_lowest}
use lt_micros.Vad.{look_for_vad_from_address}
use lt_micros.Vad.Lookup.{Tiles, Holder, look_for_vad-Tiles}
use lt_micros.Vad.Frames.{IsFull, IsSound, took, took-IsSound}
use lt_micros.Vad.Operations.{flags_present}
use lt_micros.Process.{Process, resolve_page_fault, map_fault}

module _ (env : Mapper) where
  open env use {Machine, get_free_page, add_page, current_directory, set_directory}

  -- The machine after a page of GetFreePage is mapped at the address, in the directory of the process,
  -- and the directory that was current is so again.
  abbrev pub resolved : ℕ → Process → Machine → Machine
  resolved address p m =
      let taken = (get_free_page m).1 in
      set_directory (current_directory taken) (
        add_page address (get_free_page m).0 flags_present p.page_directory
          (set_directory p.page_directory taken))

  module _ (address : ℕ) (p : Process) (m : Machine) (real : address ≢ null) where
    resolve_outside :
        look_for_vad_from_address address p.vads ≡ err not_found
        → resolve_page_fault env address p m ≡ (err not_found, m)
    unfolding resolve_page_fault
    resolve_outside missing = ground arith

    module _ (i : ℕ) (found : look_for_vad_from_address address p.vads ≡ ok i)
        (h : Holder address p.vads i) where
      resolve_free : h.vad.free ≡ true → resolve_page_fault env address p m ≡ (err unexpected, m)
      unfolding resolve_page_fault
      resolve_free f = ground (arith, found, h.there)

      resolve_used :
          h.vad.free ≡ false → resolve_page_fault env address p m ≡ map_fault env address p m
      unfolding resolve_page_fault
      resolve_used f = ground (arith, found, h.there)

      pub resolve_in_use :
          h.vad.free ≡ false
          → (get_free_page m).0 ≢ null
          → resolve_page_fault env address p m ≡ (ok tt, resolved address p m)
      unfolding map_fault
      resolve_in_use f q = resolve_used f ∙ ground arith

      resolve_no_page :
          h.vad.free ≡ false
          → (get_free_page m).0 ≡ null
          → resolve_page_fault env address p m ≡ (ok tt, (get_free_page m).1)
      unfolding map_fault
      resolve_no_page f q = resolve_used f ∙ ground arith

-- The call of AddPageToPageDirectory for a fault at an address.
abbrev pub mapped_at : (address frame : ℕ) → Process → Mapping
mapped_at address frame p = record {
  v_addr = address;
  p_addr = frame;
  flags = 7;
  directory = p.page_directory;
  current = p.page_directory;
}

-- How ResolvePageFault ends for an address, over the bitmap of this kernel's allocator. On a descriptor
-- in use the first free page is taken and mapped, as present; with none free it is the frame at
-- 0xFFFFFFFF, and if page 0 is the first one it is taken and not mapped. On a free descriptor and outside
-- of all it is an error, and nothing is done.
pub data Resolves (address b e : ℕ) (p : Process) (m : Recorded)
    : Run (Unit {0}) × Recorded → Type 0 where
  in_use :
      (i page : ℕ) (after : Recorded) (h : Holder address p.vads i)
      → h.vad.free ≡ false
      → FirstFree m.bitmap page
      → 0 < page
      → after.mapped ≡ mapped_at address (page * 4096) p ∷ m.mapped
      → after.current ≡ m.current
      → ((q : ℕ) → is_used after.bitmap q ≡ ((page == q) || is_used m.bitmap q))
      → IsSound after
      → Resolves address b e p m (ok tt, after)
  first_page :
      (i : ℕ) (after : Recorded) (h : Holder address p.vads i)
      → h.vad.free ≡ false
      → FirstFree m.bitmap 0
      → after.mapped ≡ m.mapped
      → ((q : ℕ) → is_used after.bitmap q ≡ ((0 == q) || is_used m.bitmap q))
      → Resolves address b e p m (ok tt, after)
  memory_used_up :
      (i : ℕ) (h : Holder address p.vads i)
      → h.vad.free ≡ false
      → IsFull m.bitmap
      → Resolves address b e p m
          (ok tt, record m { mapped = mapped_at address 0xffff_ffff p ∷ m.mapped })
  not_in_use :
      (i : ℕ) (h : Holder address p.vads i)
      → h.vad.free ≡ true
      → Resolves address b e p m (err unexpected, m)
  outside : (address < b) ⊎ (e ≤ address) → Resolves address b e p m (err not_found, m)

module _ (address b e : ℕ) (p : Process) (m : Recorded) (real : address ≢ null)
    (s : IsSound m) where
  module _ (i : ℕ) (found : look_for_vad_from_address address p.vads ≡ ok i)
      (h : Holder address p.vads i) (used : h.vad.free ≡ false) where
    Resolves_full :
        IsFull m.bitmap → Resolves address b e p m (resolve_page_fault recorder address p m)
    Resolves_full full =
        let (none_left, answered) = get_free_page_full m.bitmap full in
        rw (resolve_in_use recorder address p m real i found h used answered)
          (rw none_left (memory_used_up i h used full))

    Resolves_zero :
        FirstFree m.bitmap 0 → Resolves address b e p m (resolve_page_fault recorder address p m)
    Resolves_zero f =
        let got = get_free_page_lowest m.bitmap s.bytes 0 s.size f in
        rw (resolve_no_page recorder address p m real i found h used (omega (arith, got.0)))
          (first_page i _ h used f refl got.1)

    Resolves_page :
        (page : ℕ)
        → 0 < page
        → FirstFree m.bitmap page
        → Resolves address b e p m (resolve_page_fault recorder address p m)
    Resolves_page page positive f =
        let got = get_free_page_lowest m.bitmap s.bytes page s.size f in
        let below : IsSound (took p.page_directory address m) =
          took-IsSound p.page_directory address page m s f in
        rw
          (resolve_in_use recorder address p m real i found h used (omega (arith, got.0, positive)))
          (in_use i page _ h used f positive
            (ap (λ (k : ℕ). mapped_at address k p ∷ m.mapped) got.0) refl got.1
            (record { bytes = below.bytes; size = below.size; owned = below.owned }))

    Resolves_in : Resolves address b e p m (resolve_page_fault recorder address p m)
    Resolves_in = elim (FirstFree-cases m.bitmap) [
      | inl (page, f) ↦ elim (Bool-cases (page == 0)) [
        | inl z ↦
            let first : page ≡ 0 = ground arith in
            Resolves_zero (subst (FirstFree m.bitmap) first f)
        | inr z ↦ Resolves_page page (ground arith) f
      ]
      | inr full ↦ Resolves_full full
    ]

-- ResolvePageFault on a real address of a process whose descriptors cover a range without gaps, over
-- this kernel's allocator with the mapped frames marked in its bitmap, ends as follows. In a descriptor in
-- use it succeeds: the first free page is taken, no other, and mapped at the address, and the machine
-- stays sound; or no page is free, and the frame at 0xFFFFFFFF is mapped; or page 0 is the first free one,
-- and is taken but not mapped. In a free descriptor it is STATUS_UNEXPECTED, outside of all
-- STATUS_NOT_FOUND, and nothing changes.
pub resolve_page_fault-Resolves :
    (address b e : ℕ) (p : Process) (m : Recorded)
    → address ≢ null
    → Tiles b e p.vads
    → IsSound m
    → Resolves address b e p m (resolve_page_fault recorder address p m)
resolve_page_fault-Resolves address b e p m real t s =
    elim (look_for_vad-Tiles address b e p.vads real t) [
      | inl (lo, hi, (i, found, h)) ↦ elim (Bool-cases h.vad.free) [
        | inl f ↦ rw (resolve_free recorder address p m real i found h f) (not_in_use i h f)
        | inr f ↦ Resolves_in address b e p m real s i found h f
      ]
      | inr (out, missing) ↦ rw (resolve_outside recorder address p m real missing) (outside out)
    ]

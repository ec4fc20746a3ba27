-- ===== src/HandleManager/Invariant.antt =====
-- The well-formed handle table, and that every operation keeps it so.
use lt_micros.Base.{
  ℕ, suc, ◌+◌, ◌≤◌, ◌<◌, ◌≡◌, ◌≢◌, refl, none, some, List, [], ◌∷◌, ◌++◌, Bool, arith, ◌==◌, inl,
  inr, Option-cases,
}
use lt_micros.Base.Words.{null, u32_mod}
use lt_micros.KernelList.Contents.{contents, IsFilled, contents-push}
use lt_micros.KernelList.Walk.{find_first, find_first-append}
use lt_micros.HandleManager.{
  HandleManager, HandleObject, plenty, init, process_handle, create_handle, create_unchecked,
  find_or_create,
}
use lt_micros.HandleManager.Search.{
  entry, create_handle_old, create_handle_new, find_or_create_old, find_or_create_new,
}

-- The handles rise along the table and lie in `[lo, hi)`.
abbrev pub Ranged : ℕ → ℕ → List HandleObject → Type 0
Ranged lo hi [] = lo ≤ hi
Ranged lo hi (x ∷ xs) = (lo ≤ x.handle) × Ranged (suc x.handle) hi xs

-- No object stands in the table twice.
abbrev pub Unique : List HandleObject → Type 0
Unique [] = Unit {0}
Unique (x ∷ xs) = (find_first (λ h. h.object == x.object) xs ≡ none) × Unique xs

pub record IsValid (m : HandleManager) : Type 0 where
  pub filled : IsFilled m.handles
  pub ranged : Ranged 1 m.next_value (contents m.handles)
  pub unique : Unique (contents m.handles)

abbrev pub new_entry : ℕ → ℕ → HandleObject
new_entry handle object = record { handle = handle; object = object }

Ranged-le : (lo hi : ℕ) (xs : List HandleObject) → Ranged lo hi xs → lo ≤ hi
Ranged-le lo hi [] r = r
Ranged-le lo hi (x ∷ xs) r = omega (arith, Ranged-le (suc x.handle) hi xs r.1)

Ranged-append :
    (lo hi object : ℕ) (xs : List HandleObject)
    → Ranged lo hi xs
    → Ranged lo (hi + 1) (xs ++ new_entry hi object ∷ [])
Ranged-append lo hi object [] r = (r, omega arith)
Ranged-append lo hi object (x ∷ xs) r = (r.0, Ranged-append (suc x.handle) hi object xs r.1)

Unique-append :
    (hi object : ℕ) (xs : List HandleObject)
    → Unique xs
    → find_first (λ h. h.object == object) xs ≡ none
    → Unique (xs ++ new_entry hi object ∷ [])
unfolding find_first
Unique-append hi object [] u e = (refl, tt)
Unique-append hi object (x ∷ xs) u e = (
  ground (
    arith,
    find_first-append (λ (h : HandleObject). h.object == x.object) xs (new_entry hi object ∷ [])
        u.0,
  ),
  Unique-append hi object xs u.1 (ground arith),
)

pub find_first-Ranged :
    (p : HandleObject → Bool) (lo hi : ℕ) (xs : List HandleObject) (h : HandleObject)
    → Ranged lo hi xs
    → find_first p xs ≡ some h
    → (lo ≤ h.handle) × (h.handle < hi)
unfolding find_first
find_first-Ranged p lo hi [] h r e = ground arith
find_first-Ranged p lo hi (x ∷ xs) h r e =
    ground
      (arith, find_first-Ranged p (suc x.handle) hi xs h r.1, Ranged-le (suc x.handle) hi xs r.1)

-- Two objects with one handle are the same object.
pub Ranged-injective :
    (lo hi a b : ℕ) (xs : List HandleObject) (h k : HandleObject)
    → Ranged lo hi xs
    → find_first (λ h. h.object == a) xs ≡ some h
    → find_first (λ h. h.object == b) xs ≡ some k
    → h.handle ≡ k.handle
    → a ≡ b
unfolding find_first
Ranged-injective lo hi a b [] h k r e f s = ground arith
Ranged-injective lo hi a b (x ∷ xs) h k r e f s = ground (
  arith,
  find_first-Ranged (λ (h : HandleObject). h.object == a) (suc x.handle) hi xs h r.1,
  find_first-Ranged (λ (h : HandleObject). h.object == b) (suc x.handle) hi xs k r.1,
  Ranged-injective (suc x.handle) hi a b xs h k r.1,
)

pub init-IsValid : IsValid init
unfolding contents
init-IsValid = record { filled = tt; ranged = omega arith; unique = tt }

module _ (m : HandleManager) (object out : ℕ) (valid : IsValid m) (real : object ≢ null)
    (out_real : out ≢ null) (room : m.next_value + 1 < u32_mod) where
  -- What a table with an entry more holds.
  pub contents_new :
      entry m object ≡ none
      → contents (create_unchecked m plenty process_handle object out).1.handles
        ≡ contents m.handles ++ new_entry m.next_value object ∷ []
  unfolding create_unchecked
  contents_new e =
      ground (arith, contents-push m.handles (new_entry m.next_value object) valid.filled)

  pub create_unchecked-IsValid :
      entry m object ≡ none → IsValid (create_unchecked m plenty process_handle object out).1
  unfolding create_unchecked
  create_unchecked-IsValid e =
      let pushed = contents-push m.handles (new_entry m.next_value object) valid.filled in
      ground (
        arith,
        pushed,
        Ranged-append 1 m.next_value object (contents m.handles) valid.ranged,
        Unique-append m.next_value object (contents m.handles) valid.unique e,
      )

  pub create_handle-IsValid : IsValid (create_handle m plenty process_handle object out).1
  create_handle-IsValid = elim (Option-cases (entry m object)) [
    | inl e ↦
        rw (create_handle_new m object out valid.filled real out_real plenty e)
          (create_unchecked-IsValid e)
    | inr (h, e) ↦ rw (create_handle_old m object out valid.filled real out_real plenty h e) valid
  ]

  -- FindOrCreate keeps the table well-formed: handles distinct, below the counter, one to an object.
  pub find_or_create-IsValid : IsValid (find_or_create m plenty process_handle object out).1
  find_or_create-IsValid = elim (Option-cases (entry m object)) [
    | inl e ↦
        rw (find_or_create_new m object out valid.filled real out_real plenty e)
          (create_unchecked-IsValid e)
    | inr (h, e) ↦ rw (find_or_create_old m object out valid.filled real out_real plenty h e) valid
  ]

-- ===== src/KernelList/Walk.antt =====
-- ListEnumerate with the search callbacks that the kernel gives it.
use lt_micros.Base.{
  ◌≡◌, refl, Option, none, some, List, [], ◌∷◌, ◌++◌, Bool, false, arith, if◌then◌else◌,
}
use lt_micros.Base.Status.{KeStatus, success, list_stop_iterating, null_parameter}
use lt_micros.KernelList.{KernelList, enumerate, enumerate_cells}
use lt_micros.KernelList.Contents.{contents, keep, AllSome, IsFilled, FilledCells}

module _ {ℓ} {A : Type ℓ} where
  -- The first entry that passes a test.
  unfoldable pub find_first : (A → Bool) → List A → Option A
  find_first p [] = none
  find_first p (x ∷ xs) = if p x then some x else find_first p xs

  -- A callback that rejects a null entry, stops at the first entry that passes the test, and
  -- leaves it in its context. FindHandle, FindIpcObject and LookForThread are of this form.
  abbrev pub stop_at : (A → Bool) → Option A → Option A → KeStatus × Option A
  stop_at p found none = (null_parameter, found)
  stop_at p found (some a) = if p a then (list_stop_iterating, some a) else (success, found)

  stop_cells :
      (p : A → Bool) (xs : List (Option A))
      → AllSome xs
      → enumerate_cells (stop_at p) none xs ≡ (success, find_first p (keep xs))
  unfolding enumerate_cells find_first keep
  stop_cells p [] f = refl
  stop_cells p (none ∷ xs) f = absurd f
  stop_cells p (some a ∷ xs) f = ground (arith, stop_cells p xs f)

  stop_list :
      (p : A → Bool) (d : Option A) (xs : List (Option A))
      → FilledCells d xs
      → enumerate (stop_at p) none (record { head = d; rest = xs })
        ≡ (success, find_first p (keep (d ∷ xs)))
  unfolding enumerate keep find_first
  stop_list p none [] f = refl
  stop_list p none (x ∷ xs) f = absurd f
  stop_list p (some d) xs f = stop_cells p (some d ∷ xs) f

  -- On a list with no null entry the enumeration succeeds, with the first entry that passes.
  pub enumerate-find_first :
      (p : A → Bool) (l : KernelList A)
      → IsFilled l
      → enumerate (stop_at p) none l ≡ (success, find_first p (contents l))
  unfolding contents
  enumerate-find_first p l f = stop_list p l.head l.rest f

  pub find_first-append :
      (p : A → Bool) (xs ys : List A)
      → find_first p xs ≡ none
      → find_first p (xs ++ ys) ≡ find_first p ys
  unfolding find_first
  find_first-append p [] ys e = refl
  find_first-append p (x ∷ xs) ys e = ground (arith, find_first-append p xs ys)

  pub find_first-append_some :
      (p : A → Bool) (xs ys : List A) (a : A)
      → find_first p xs ≡ some a
      → find_first p (xs ++ ys) ≡ some a
  unfolding find_first
  find_first-append_some p [] ys a e = ground arith
  find_first-append_some p (x ∷ xs) ys a e = ground (arith, find_first-append_some p xs ys a)

  pub find_first-append_miss :
      (p : A → Bool) (xs : List A) (a : A)
      → p a ≡ false
      → find_first p (xs ++ a ∷ []) ≡ find_first p xs
  unfolding find_first
  find_first-append_miss p [] a e = ground arith
  find_first-append_miss p (x ∷ xs) a e = ground (arith, find_first-append_miss p xs a)

-- ===== src/KernelList/Contents.antt =====
-- The list as the sequence of what it holds: push appends, pop takes from the front.
use lt_micros.Base.{
  ℕ, zero, suc, ◌<◌, ◌≤◌, ◌≡◌, refl, ap, ◌∙◌, map, Option, none, some, List, [], ◌∷◌, ◌++◌, true,
  false, arith, length, get_elem?,
}
use lt_micros.Base.Status.{ok, fault}
use lt_micros.KernelList.{
  KernelList, Event, cleaned, freed, push, get, get_from, pop, destroy, destroy_cells,
}

module _ {ℓ} {A : Type ℓ} where
  unfoldable pub keep : List (Option A) → List A
  keep [] = []
  keep (none ∷ xs) = keep xs
  keep (some a ∷ xs) = a ∷ keep xs

  -- What the list holds, front first.
  unfoldable pub contents : KernelList A → List A
  unfolding keep
  contents l = keep (l.head ∷ l.rest)

  abbrev pub AllSome : List (Option A) → Type 0
  AllSome [] = Unit {0}
  AllSome (none ∷ xs) = ⊥
  AllSome (some a ∷ xs) = AllSome xs

  -- No null pointer is stored, so only the one cell of the empty list has a null `data`.
  abbrev pub FilledCells : Option A → List (Option A) → Type 0
  FilledCells none [] = Unit {0}
  FilledCells none (x ∷ xs) = ⊥
  FilledCells (some a) xs = AllSome xs

  abbrev pub IsFilled : KernelList A → Type 0
  IsFilled l = FilledCells l.head l.rest

  AllSome-append : (xs : List (Option A)) (a : A) → AllSome xs → AllSome (xs ++ some a ∷ [])
  AllSome-append [] a f = tt
  AllSome-append (none ∷ xs) a f = absurd f
  AllSome-append (some b ∷ xs) a f = AllSome-append xs a f

  keep-append : (xs : List (Option A)) (a : A) → keep (xs ++ some a ∷ []) ≡ keep xs ++ a ∷ []
  unfolding keep
  keep-append [] a = refl
  keep-append (none ∷ xs) a = keep-append xs a
  keep-append (some b ∷ xs) a = ap (◌∷◌ b) (keep-append xs a)

  push_cells :
      (d : Option A) (xs : List (Option A)) (a : A)
      → FilledCells d xs
      → let l = push true (record { head = d; rest = xs }) (some a) in
        IsFilled l × (contents l ≡ keep (d ∷ xs) ++ a ∷ [])
  unfolding push contents
  push_cells none [] a f = (tt, refl)
  push_cells none (x ∷ xs) a f = absurd f
  push_cells (some b) xs a f = (AllSome-append xs a f, ap (◌∷◌ b) (keep-append xs a))

  -- Given memory for a cell, ListPush puts the new data behind all others.
  pub contents-push :
      (l : KernelList A) (a : A)
      → IsFilled l
      → IsFilled (push true l (some a)) × (contents (push true l (some a)) ≡ contents l ++ a ∷ [])
  unfolding contents
  contents-push l a f = push_cells l.head l.rest a f

  -- What ListPop does to a list that holds `xs`.
  abbrev pub Pops : List A → Option A × KernelList A → Type ℓ
  Pops [] (o, l) = (o ≡ none) × (contents l ≡ [])
  Pops (x ∷ xs) (o, l) = (o ≡ some x) × (contents l ≡ xs)

  pop_cells :
      (d : Option A) (xs : List (Option A))
      → FilledCells d xs
      → let r = pop (record { head = d; rest = xs }) in IsFilled r.1 × Pops (keep (d ∷ xs)) r
  unfolding pop contents
  pop_cells none [] f = (tt, (refl, refl))
  pop_cells none (x ∷ xs) f = absurd f
  pop_cells (some b) [] f = (tt, (refl, refl))
  pop_cells (some b) (none ∷ xs) f = absurd f
  pop_cells (some b) (some c ∷ xs) f = (f, (refl, refl))

  -- ListPop takes the front, or answers null on the empty list.
  pub pop-Pops : (l : KernelList A) → IsFilled l → IsFilled (pop l).1 × Pops (contents l) (pop l)
  unfolding contents
  pop-Pops l f = pop_cells l.head l.rest f

  get_cells :
      (i : ℕ) (d : A) (x : Option A) (xs : List (Option A))
      → AllSome (x ∷ xs)
      → get_from i (some d) (x ∷ xs) ≡ ok (get_elem? (d ∷ keep (x ∷ xs)) i)
  unfolding get_from keep
  get_cells i d none xs f = absurd f
  get_cells zero d (some e) xs f = refl
  get_cells (suc zero) d (some e) [] f = refl
  get_cells (suc (suc i)) d (some e) [] f = refl
  get_cells (suc i) d (some e) (none ∷ xs) f = absurd f
  get_cells (suc i) d (some e) (some y ∷ xs) f = get_cells i e (some y) xs f

  get_many :
      (l : KernelList A) (d : Option A) (xs : List (Option A)) (i : ℕ)
      → FilledCells d xs
      → l ≡ record { head = d; rest = xs }
      → 1 < length (keep (d ∷ xs))
      → get l i ≡ ok (get_elem? (keep (d ∷ xs)) i)
  unfolding get keep
  get_many l none [] i f e h = absurd (omega arith)
  get_many l none (x ∷ xs) i f e h = absurd f
  get_many l (some d) [] i f e h = absurd (omega arith)
  get_many l (some d) (x ∷ xs) i f e h = rw e (get_cells i d x xs f)

  -- On a list of two or more ListGet is the lookup by position, null beyond the end.
  pub get-get_elem? :
      (l : KernelList A) (i : ℕ)
      → IsFilled l
      → 1 < length (contents l)
      → get l i ≡ ok (get_elem? (contents l) i)
  unfolding contents
  get-get_elem? l i f h = get_many l l.head l.rest i f refl h

  get_one :
      (d : Option A) (xs : List (Option A)) (i : ℕ)
      → FilledCells d xs
      → length (keep (d ∷ xs)) ≤ 1
      → get (record { head = d; rest = xs }) (suc i) ≡ fault
  unfolding get get_from keep
  get_one none [] i f h = refl
  get_one none (x ∷ xs) i f h = absurd f
  get_one (some d) [] i f h = refl
  get_one (some d) (none ∷ xs) i f h = absurd f
  get_one (some d) (some e ∷ xs) i f h = absurd (omega arith)

  -- On a list of at most one entry ListGet follows a null pointer at every index but 0.
  pub get_short_faults :
      (l : KernelList A) (i : ℕ) → IsFilled l → length (contents l) ≤ 1 → get l (suc i) ≡ fault
  unfolding contents
  get_short_faults l i f h = get_one l.head l.rest i f h

  unfoldable pub cleaned_data : List (Event A) → List A
  cleaned_data [] = []
  cleaned_data (cleaned a ∷ es) = a ∷ cleaned_data es
  cleaned_data (freed ∷ es) = cleaned_data es

  unfoldable pub freed_cells : List (Event A) → ℕ
  freed_cells [] = 0
  freed_cells (cleaned a ∷ es) = freed_cells es
  freed_cells (freed ∷ es) = suc (freed_cells es)

  destroy_all :
      (xs : List (Option A))
      → (cleaned_data (destroy_cells true xs) ≡ keep xs)
        × (freed_cells (destroy_cells true xs) ≡ length xs)
        × (cleaned_data (destroy_cells false xs) ≡ [])
        × (freed_cells (destroy_cells false xs) ≡ length xs)
  unfolding destroy_cells keep cleaned_data freed_cells
  destroy_all [] = (refl, refl, refl, refl)
  destroy_all (none ∷ xs) = let h = destroy_all xs in (h.0, ap suc h.1, h.2, ap suc h.3)
  destroy_all (some a ∷ xs) =
      let h = destroy_all xs in (ap (◌∷◌ a) h.0, ap suc h.1, h.2, ap suc h.3)

  -- ListDestroyEx hands each entry to the cleaner once, front first, and frees every cell;
  -- without a cleaner it only frees the cells.
  pub destroy_lem :
      (l : KernelList A)
      → (cleaned_data (destroy true l) ≡ contents l)
        × (freed_cells (destroy true l) ≡ suc (length l.rest))
        × (cleaned_data (destroy false l) ≡ [])
        × (freed_cells (destroy false l) ≡ suc (length l.rest))
  unfolding destroy contents
  destroy_lem l = destroy_all (l.head ∷ l.rest)

  -- A list that holds something has its entries in its cells, one to a cell.
  pub cells_of :
      (d : Option A) (xs : List (Option A)) (a : A) (as' : List A)
      → FilledCells d xs
      → keep (d ∷ xs) ≡ a ∷ as'
      → d ∷ xs ≡ map some (a ∷ as')
  unfolding keep
  cells_of none [] a as' f e = cc
  cells_of none (x ∷ xs) a as' f e = absurd f
  cells_of (some b) xs a as' f e = ap (◌∷◌ (some b)) (all_some xs f) ∙ ap (map some) e
    where
      all_some : (ys : List (Option A)) → AllSome ys → ys ≡ map some (keep ys)
      all_some [] g = refl
      all_some (none ∷ ys) g = absurd g
      all_some (some c ∷ ys) g = ap (◌∷◌ (some c)) (all_some ys g)

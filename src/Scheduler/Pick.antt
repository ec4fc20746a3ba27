-- ===== src/Scheduler/Pick.antt =====
-- _PickNextThread goes round the list of threads.
use lt_micros.Base.{ℕ, ◌≡◌, ◌≢◌, refl, sym, ◌∙◌, ap, Option, some, List, [], ◌∷◌, ◌++◌, arith, map}
use lt_micros.Base.Words.{null}
use lt_micros.KernelList.{top}
use lt_micros.KernelList.Contents.{contents, IsFilled, cells_of}
use lt_micros.Scheduler.{Scheduler, pick_from, pick_next_thread, pointer}

abbrev pub Absent : ℕ → List ℕ → Type 0
Absent c [] = Unit {0}
Absent c (x ∷ xs) = (x ≢ c) × Absent c xs

-- The list of the scheduler holds the threads `ts`, front first.
pub record HasThreads (s : Scheduler) (ts : List ℕ) : Type 0 where
  pub filled : IsFilled s.threads_list
  pub held : contents s.threads_list ≡ ts

pick_inner :
    (c next : ℕ) (first : Option ℕ) (before behind : List ℕ)
    → Absent c before
    → pick_from c first (map some (before ++ c ∷ next ∷ behind)) ≡ next
unfolding pick_from
pick_inner c next first [] behind out = ground arith
pick_inner c next first (x ∷ []) behind out = ground (arith, pick_inner c next first [] behind tt)
pick_inner c next first (x ∷ y ∷ xs) behind out =
    ground (arith, pick_inner c next first (y ∷ xs) behind out.1)

pick_last :
    (c : ℕ) (first : Option ℕ) (before : List ℕ)
    → Absent c before
    → pick_from c first (map some (before ++ c ∷ [])) ≡ pointer first
unfolding pick_from
pick_last c first [] out = ground arith
pick_last c first (x ∷ []) out = ground (arith, pick_last c first [] tt)
pick_last c first (x ∷ y ∷ xs) out = ground (arith, pick_last c first (y ∷ xs) out.1)

pick-Absent :
    (c : ℕ) (first : Option ℕ) (ts : List ℕ) → Absent c ts → pick_from c first (map some ts) ≡ null
unfolding pick_from
pick-Absent c first [] out = refl
pick-Absent c first (x ∷ []) out = ground arith
pick-Absent c first (x ∷ y ∷ xs) out = ground (arith, pick-Absent c first (y ∷ xs) out.1)

-- The cells of a scheduler that has threads, and its first one.
cells :
    (s : Scheduler) (t : ℕ) (ts : List ℕ)
    → HasThreads s (t ∷ ts)
    → (s.threads_list.head ∷ s.threads_list.rest ≡ map some (t ∷ ts))
      × (top s.threads_list ≡ some t)
unfolding contents top
cells s t ts h =
    let e : s.threads_list.head ∷ s.threads_list.rest ≡ map some (t ∷ ts) =
      cells_of s.threads_list.head s.threads_list.rest t ts h.filled h.held in
    (e, cc)

pick_in :
    (s : Scheduler) (c t : ℕ) (ts : List ℕ)
    → HasThreads s (t ∷ ts)
    → c ≢ null
    → pick_next_thread s c ≡ pick_from c (some t) (map some (t ∷ ts))
unfolding pick_next_thread
pick_in s c t ts h real = let e = cells s t ts h in ground arith

-- The thread after the current one in the list is the next one.
pub pick_next_thread_next :
    (s : Scheduler) (c next : ℕ) (before behind : List ℕ)
    → HasThreads s (before ++ c ∷ next ∷ behind)
    → c ≢ null
    → Absent c before
    → pick_next_thread s c ≡ next
pick_next_thread_next s c next [] behind h real out =
    pick_in s c c (next ∷ behind) h real ∙ pick_inner c next (some c) [] behind out
pick_next_thread_next s c next (x ∷ xs) behind h real out =
    pick_in s c x (xs ++ c ∷ next ∷ behind) h real ∙ pick_inner c next (some x) (x ∷ xs) behind out

-- After the last thread of the list comes the first one.
pub pick_next_thread_wrap :
    (s : Scheduler) (c t : ℕ) (ts before : List ℕ)
    → HasThreads s (t ∷ ts)
    → before ++ c ∷ [] ≡ t ∷ ts
    → c ≢ null
    → Absent c before
    → pick_next_thread s c ≡ t
pick_next_thread_wrap s c t ts before h e real out =
    pick_in s c t ts h real
    ∙ ap (λ l. pick_from c (some t) (map some l)) (sym e)
    ∙ pick_last c (some t) before out

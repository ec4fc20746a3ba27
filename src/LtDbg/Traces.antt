-- ===== src/LtDbg/Traces.antt =====
-- kernel/debug/LtDbg.cpp: the stack trace, over the frames that the interrupted task has on its stack.
use lt_micros.Base.{
  ℕ, zero, suc, ◌+◌, ◌*◌, ◌^◌, ◌<◌, ◌≡◌, ◌≢◌, refl, ap, sym, ◌∙◌, Option, none, some, List, [], ◌∷◌,
  ◌++◌, true, false, ◌==◌, length, append_assoc, append_nil, arith,
}
use mathlib.Core.Path.{subst}
use lt_micros.Base.Words.{null, mul32}
use lt_micros.Base.Status.{Run, ok}
use lt_micros.KernelList.{KernelList}
use lt_micros.KernelList
use lt_micros.KernelList.Contents.{contents, IsFilled, contents-push, Pops, pop-Pops}
use lt_micros.LtDbgCom.{Granting, Line, ◌>>=◌, heap_alloc}
use lt_micros.LtDbgCom.Packets.{line, bind_ok}
use lt_micros.LtDbg.Command
use lt_micros.LtDbg.Answer
use lt_micros.LtDbg.{
  Target, Session, answering, outcome, replied, to_data, pop_all, words, alloc, word_at,
  walk_frames, answer_trace, stack_trace_command,
}

pop_step :
    (cells : ℕ) (l : KernelList ℕ) {o : Option ℕ}
    → (KernelList.pop l).0 ≡ o
    → pop_all (suc cells) l
      ≡ (elim o [ none ↦ [] | some a ↦ a ∷ pop_all cells (KernelList.pop l).1 ])
unfolding pop_all
pop_step cells l e =
    ap
      (λ (o : Option ℕ). elim o as (λ o. List ℕ) [
        | none ↦ []
        | some a ↦ a ∷ pop_all cells (KernelList.pop l).1
      ])
      e

-- What the pops give is what the list holds.
pop_all-contents :
    (xs : List ℕ) (cells : ℕ) (l : KernelList ℕ)
    → IsFilled l
    → contents l ≡ xs
    → length xs < cells
    → pop_all cells l ≡ xs
pop_all-contents xs zero l filled e room = absurd (omega arith)
pop_all-contents [] (suc cells) l filled e room =
    let popped = subst (λ ys. Pops ys (KernelList.pop l)) e (pop-Pops l filled).1 in
    pop_step cells l popped.0
pop_all-contents (x ∷ xs) (suc cells) l filled e room =
    let popped = subst (λ ys. Pops ys (KernelList.pop l)) e (pop-Pops l filled).1 in
    pop_step cells l popped.0
    ∙ ap (◌∷◌ x) (
        pop_all-contents xs cells (KernelList.pop l).1 (pop-Pops l filled).0 popped.1 (omega arith))

-- A frame holds the address of the one before it, and the address that its function returns to.
pub record Frame : Type 0 where
  pub caller : ℕ
  pub return : ℕ

abbrev pub returns : List Frame → List ℕ
returns [] = []
returns (f ∷ fs) = f.return ∷ returns fs

length-returns : (fs : List Frame) → length (returns fs) ≡ length fs
length-returns [] = refl
length-returns (f ∷ fs) = ap suc (length-returns fs)

module _ (t : Target) (directory : ℕ) where
  -- The frames that lie on the stack from `ebp` on; the last one has no caller.
  abbrev pub OnStack : ℕ → List Frame → Type 0
  OnStack ebp [] = ebp ≡ 0
  OnStack ebp (f ∷ fs) =
      (ebp ≢ 0)
      × (f.return ≢ 0)
      × (word_at t directory ebp ≡ f.caller)
      × (word_at t directory (ebp + 4) ≡ f.return)
      × OnStack f.caller fs

to_data-some : (d : ℕ) → d ≢ 0 → to_data d ≡ some d
to_data-some zero h = absurd (h refl)
to_data-some (suc d) h = refl

head_kept :
    (l : KernelList ℕ) (d : Option ℕ)
    → KernelList.is_none l.head ≡ false
    → KernelList.is_none (KernelList.push true l d).head ≡ false
unfolding KernelList.push
head_kept l d h = rw h h

module _ (t : Target) (granted : Granting t.heap) where
  -- The cells of `count` pushes from the allocation `n` on, in front of the others.
  abbrev pub cells_from : (count n : ℕ) → List ℕ → List ℕ
  cells_from zero n cells = cells
  cells_from (suc count) n cells = cells_from count (n + 1) (t.heap n 12 ∷ cells)

  walk_step :
      (fuel directory ebp count n : ℕ) (l : KernelList ℕ) (cells incoming out freed : List ℕ)
      (f : Frame)
      → ebp ≢ 0
      → f.return ≢ 0
      → word_at t directory ebp ≡ f.caller
      → word_at t directory (ebp + 4) ≡ f.return
      → KernelList.is_none l.head ≡ false
      → walk_frames t (suc fuel) directory ebp (some l) cells count (line incoming out n freed)
        ≡ walk_frames t fuel directory f.caller
            (some (KernelList.push true l (some f.return)))
            (t.heap n 12 ∷ cells)
            (count + 1)
            (line incoming out (n + 1) freed)
  unfolding walk_frames alloc heap_alloc
  walk_step fuel directory ebp count n l cells incoming out freed f real back caller return held =
      let open_frame : (ebp == null) ≡ false = ground arith in
      rw open_frame (
        rw held (
          rw (granted n 12 (omega arith) (omega arith)) (
            (λ i.
              (λ (e : ℕ) (d : ℕ).
                  walk_frames t fuel directory e (some (KernelList.push true l (to_data d)))
                    (t.heap n 12 ∷ cells) (count + 1) (line incoming out (n + 1) freed))
                (caller i) (return i))
            ∙ ap
                (λ (d : Option ℕ).
                  walk_frames t fuel directory f.caller (some (KernelList.push true l d))
                    (t.heap n 12 ∷ cells) (count + 1) (line incoming out (n + 1) freed))
                (to_data-some f.return back))))

  same_walk :
      {count count' n n' : ℕ} {cells cells' : List ℕ} (l : KernelList ℕ)
      (incoming out freed : List ℕ)
      → cells ≡ cells'
      → count ≡ count'
      → n ≡ n'
      → ◌≡◌ {A = Run (Option (KernelList ℕ) × List ℕ × ℕ) × Line}
          (ok (some l, cells, count), line incoming out n freed)
          (ok (some l, cells', count'), line incoming out n' freed)
  same_walk l incoming out freed c e f = λ i. (ok (some l, c i, e i), line incoming out (f i) freed)

  walk_end :
      (fuel directory count n : ℕ) (l : KernelList ℕ) (cells incoming out freed : List ℕ)
      → walk_frames t (suc fuel) directory 0 (some l) cells count (line incoming out n freed)
        ≡ (ok (some l, cells, count), line incoming out n freed)
  unfolding walk_frames
  walk_end fuel directory count n l cells incoming out freed = refl

  walk_frames-returns :
      (fs : List Frame) (directory ebp count n : ℕ) (l : KernelList ℕ)
      (cells incoming out freed : List ℕ)
      → OnStack t directory ebp fs
      → IsFilled l
      → KernelList.is_none l.head ≡ false
      → (l' : KernelList ℕ) × IsFilled l'
        × (contents l' ≡ contents l ++ returns fs)
        × (walk_frames t
              (suc (length fs))
              directory
              ebp
              (some l)
              cells
              count
              (line incoming out n freed)
            ≡ (
              ok (some l', cells_from (length fs) n cells, count + length fs),
              line incoming out (n + length fs) freed,
            ))
  walk_frames-returns [] directory ebp count n l cells incoming out freed h filled held = (
    l,
    filled,
    sym (append_nil (contents l)),
    ap (λ e. walk_frames t 1 directory e (some l) cells count (line incoming out n freed)) h
        ∙ walk_end 0 directory count n l cells incoming out freed
        ∙ same_walk l incoming out freed refl (omega arith) (omega arith),
  )
  walk_frames-returns (f ∷ fs) directory ebp count n l cells incoming out freed h filled held =
      let pushed = contents-push l f.return filled in
      let (l', filled', holds, ended) =
        walk_frames-returns fs directory f.caller (count + 1) (n + 1)
          (KernelList.push true l (some f.return)) (t.heap n 12 ∷ cells) incoming out freed h.4
          pushed.0 (head_kept l (some f.return) held) in
      (
        l',
        filled',
        holds
            ∙ ap (λ xs. xs ++ returns fs) pushed.1
            ∙ append_assoc (contents l) (f.return ∷ []) (returns fs),
        walk_step (suc (length fs)) directory ebp count n l cells incoming out freed f h.0 h.1 h.2
              h.3 held
            ∙ ended
            ∙ same_walk l' incoming out freed refl (omega arith) (omega arith),
      )

  -- The list with the address where the task was interrupted.
  first_address : ℕ → KernelList ℕ
  first_address eip = KernelList.push true KernelList.create (some eip)

  first_address_lem :
      (eip : ℕ)
      → IsFilled (first_address eip)
        × (contents (first_address eip) ≡ eip ∷ [])
        × (KernelList.is_none (first_address eip).head ≡ false)
  unfolding first_address KernelList.push contents
  first_address_lem eip = (tt, refl, refl)

  trace_begins :
      (fuel n : ℕ) (s : Session) (incoming out freed : List ℕ)
      → s.context.eip ≢ 0
      → stack_trace_command t fuel s (line incoming out n freed)
        ≡ (walk_frames t fuel s.context.cr3 s.context.ebp
                (some (first_address s.context.eip))
                (t.heap n 12 ∷ [])
                1
              >>= answer_trace t s)
            (line incoming out (n + 1) freed)
  unfolding stack_trace_command alloc heap_alloc first_address
  trace_begins fuel n s incoming out freed real = rw (granted n 12 (omega arith) (omega arith)) (
      ap
        (λ (d : Option ℕ).
          (walk_frames t fuel s.context.cr3 s.context.ebp
                (some (KernelList.push true KernelList.create d)) (t.heap n 12 ∷ []) 1
              >>= answer_trace t s)
            (line incoming out (n + 1) freed))
        (to_data-some s.context.eip real))

  the_size : (count : ℕ) → count * 4 < 2 ^ 31 → mul32 count 4 ≡ count * 4
  the_size count h = omega arith

  trace_ends :
      (xs : List ℕ) (count n : ℕ) (l : KernelList ℕ) (cells : List ℕ) (s : Session)
      (incoming out freed : List ℕ)
      → 0 < count
      → count * 4 < 2 ^ 31
      → pop_all (count + 1) l ≡ xs
      → answer_trace t s (some l, cells, count) (line incoming out n freed) ≡ (
        ok (
          false,
          replied s (
              outcome Answer.success
                (mul32 count 4)
                (t.heap n (mul32 count 4))
                (words xs)
                (answering Command.stack_trace s.context s.response)),
        ),
        line incoming out (n + 1) (cells ++ freed),
      )
  unfolding answer_trace alloc heap_alloc
  trace_ends xs count n l cells s incoming out freed some_frames small popped =
      rw (granted n (mul32 count 4) (omega arith) (omega arith)) (
        ap
          (λ (ys : List ℕ). (
            ok (
              false,
              replied s (
                  outcome Answer.success (mul32 count 4) (t.heap n (mul32 count 4)) (words ys)
                    (answering Command.stack_trace s.context s.response)),
            ),
            line incoming out (n + 1) (cells ++ freed),
          ))
          popped)

  -- StackTraceCommand on a task interrupted at an address other than 0, on a stack whose frames end,
  -- with return addresses other than 0 and fewer than 2 ^ 29 - 1 of them, and given memory for every size that HeapAlloc takes: the answer is the address
  -- where the task was interrupted and then the return addresses of its frames from the innermost on,
  -- four bytes each; as many rounds as there are frames and one are enough. It frees exactly the cells
  -- of its list, each once, and keeps one block, that of the answer.
  pub stack_trace_command-returns :
      (fs : List Frame) (n : ℕ) (s : Session) (incoming out freed : List ℕ)
      → s.context.eip ≢ 0
      → (1 + length fs) * 4 < 2 ^ 31
      → OnStack t s.context.cr3 s.context.ebp fs
      → let size = (1 + length fs) * 4 in
        let n' = n + 1 + length fs in
        stack_trace_command t (suc (length fs)) s (line incoming out n freed) ≡ (
          ok (
            false,
            replied s (
                outcome Answer.success size
                  (t.heap n' size)
                  (words (s.context.eip ∷ returns fs))
                  (answering Command.stack_trace s.context s.response)),
          ),
          line incoming out (n' + 1) (cells_from (suc (length fs)) n [] ++ freed),
        )
  stack_trace_command-returns fs n s incoming out freed real small chain =
      let eip = s.context.eip in
      let first = first_address_lem eip in
      let cells = cells_from (length fs) (n + 1) (t.heap n 12 ∷ []) in
      let (l', filled, holds, walked) =
        walk_frames-returns fs s.context.cr3 s.context.ebp 1 (n + 1) (first_address eip)
          (t.heap n 12 ∷ []) incoming out freed chain first.0 first.2 in
      let whole : contents l' ≡ eip ∷ returns fs = holds ∙ ap (λ xs. xs ++ returns fs) first.1 in
      trace_begins (suc (length fs)) n s incoming out freed real
      ∙ bind_ok
          (walk_frames t (suc (length fs)) s.context.cr3 s.context.ebp (some (first_address eip))
            (t.heap n 12 ∷ []) 1)
          (answer_trace t s) (line incoming out (n + 1) freed) walked
      ∙ trace_ends (eip ∷ returns fs) (1 + length fs) (n + 1 + length fs) l' cells s incoming out
          freed (omega arith) small
          (pop_all-contents (eip ∷ returns fs) (1 + length fs + 1) l' filled whole
            (omega (arith, length-returns fs)))
      ∙ ap
          (λ (size : ℕ). (
            ok (
              false,
              replied s (
                  outcome Answer.success size (t.heap (n + 1 + length fs) size)
                    (words (eip ∷ returns fs))
                    (answering Command.stack_trace s.context s.response)),
            ),
            line incoming out (n + 1 + length fs + 1) (cells ++ freed),
          ))
          (the_size (1 + length fs) small)

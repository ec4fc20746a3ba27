-- ===== src/Process/HeapLimit.antt =====
-- IncreaseHeap of kernel/arch/x86/Process.cpp: the limit of a process's heap.
use lt_micros.Base.{
  ℕ, ◌+◌, ◌*◌, ◌≤◌, ◌<◌, ◌≡◌, ◌≢◌, refl, ◌⊎◌, inl, inr, some, arith, get_elem?, leb, Bool-cases,
}
use lt_micros.Base.Words.{page_size, u32_mod, add32, mul32}
use lt_micros.Base.Status.{ok, err, process_heap_limit_reached}
use lt_micros.Vad.{Vad}
use lt_micros.Process.{Process, increase_heap, heap_grown}

-- The heap's limit lies between its base and the limit of its descriptor, which is an address.
pub record HeapWithin (p : Process) : Type 0 where
  pub vad : Vad
  pub there : get_elem? p.vads p.default_heap.vad ≡ some vad
  pub from : p.default_heap.base_address ≤ p.default_heap.limit_address
  pub below : p.default_heap.limit_address ≤ vad.limit_address
  pub word : vad.limit_address < u32_mod

-- The heap after a success: the block starts at the old limit, ends at the new one, and nothing
-- else of the process has changed.
pub record Grown (nb_pages : ℕ) (p : Process) (block : ℕ) (q : Process) : Type 0 where
  pub start : block ≡ p.default_heap.limit_address
  pub end : q.default_heap.limit_address ≡ block + nb_pages * page_size
  pub same_vads : q.vads ≡ p.vads
  pub within : HeapWithin q

-- IncreaseHeap, when the bytes asked for stay inside the address space, succeeds exactly if the
-- descriptor has room for them: the block then lies between the old limit and the new one, inside
-- the descriptor. Otherwise it answers STATUS_PROCESS_HEAP_LIMIT_REACHED and changes nothing.
pub increase_heap-HeapWithin :
    (nb_pages out : ℕ) (p : Process) (w : HeapWithin p)
    → nb_pages ≢ 0
    → out ≢ 0
    → p.default_heap.limit_address + nb_pages * page_size < u32_mod
    → ((p.default_heap.limit_address + nb_pages * page_size ≤ w.vad.limit_address)
        × ((block : ℕ) × (q : Process) × (increase_heap nb_pages out p ≡ (ok block, q))
            × Grown nb_pages p block q))
      ⊎ ((w.vad.limit_address < p.default_heap.limit_address + nb_pages * page_size)
          × (increase_heap nb_pages out p ≡ (err process_heap_limit_reached, p)))
unfolding increase_heap heap_grown
increase_heap-HeapWithin nb_pages out p w some_pages place small =
    let limit = p.default_heap.limit_address + nb_pages * page_size in
    let sum : add32 p.default_heap.limit_address (mul32 nb_pages page_size) ≡ limit = omega arith in
    elim (Bool-cases (leb limit w.vad.limit_address)) [
      | inl fits ↦ inl (
        ground arith,
        (
          p.default_heap.limit_address,
          heap_grown limit p,
          ground (arith, w.there, sum),
          record {
            start = refl;
            end = refl;
            same_vads = refl;
            within = record {
              vad = w.vad;
              there = w.there;
              from = omega (arith, w.from);
              below = ground arith;
              word = w.word;
            };
          },
        ),
      )
      | inr full ↦ inr (ground arith, ground (arith, w.there, sum))
    ]

-- IncreaseHeap counts the bytes in a word: on a multiple of 2 ^ 20 pages that is not 0 it succeeds
-- on every heap inside its descriptor, and grants a block but leaves the process as it is.
pub increase_heap_wraps :
    (k out : ℕ) (p : Process)
    → HeapWithin p
    → k ≢ 0
    → out ≢ 0
    → increase_heap (k * 0x10_0000) out p ≡ (ok p.default_heap.limit_address, p)
unfolding increase_heap heap_grown
increase_heap_wraps k out p w some_pages place =
    let same : add32 p.default_heap.limit_address (mul32 (k * 0x10_0000) page_size)
        ≡ p.default_heap.limit_address =
      omega (arith, w.below, w.word) in
    ground (arith, w.there, same, w.below)

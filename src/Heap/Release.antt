-- ===== src/Heap/Release.antt =====
-- Free: the block leaves the blocks in use, and nothing else does.
use mathlib.Core.Path.{subst}
use lt_micros.Base.{
  ℕ, ◌+◌, ◌%◌, ◌≤◌, ◌<◌, ◌≡◌, refl, ap, sym, ◌∙◌, ◌⊎◌, inl, inr, List, [], ◌∷◌, ◌++◌, true, false,
  arith, ◌==◌, ◌||◌, Bool-cases,
}
use lt_micros.Base.Words.{sub32}
use lt_micros.Base.Status.{ok}
use lt_micros.Heap.{
  Block, Heap, total, last_block, header_size, size_mod, merge_blocks_from, free_block, free,
}
use lt_micros.Heap.Blocks.{used_blocks, Inserted, Nonempty}
use lt_micros.Heap.Growth.{IsHeap}
use lt_micros.Heap.Laws.{IsAllocated}

-- Merging stops at the word behind the heap.
abbrev pub Stops : Block → Type 0
Stops beyond = ((beyond.size == 0) || beyond.used) ≡ true

-- Merging a free block changes neither the blocks in use nor the extent of the heap.
record IsMerged (a : ℕ) (b : Block) (bs cs : List Block) : Type 0 where
  same : used_blocks a cs ≡ used_blocks (a + b.size) bs
  sum : total cs ≡ b.size + total bs
  nonempty : Nonempty cs

merge-IsMerged :
    (beyond : Block) (a : ℕ) (b : Block) (bs : List Block)
    → Stops beyond
    → b.used ≡ false
    → b.size + total bs < size_mod
    → Nonempty (b ∷ bs)
    → IsMerged a b bs (merge_blocks_from beyond b bs)
unfolding merge_blocks_from used_blocks total
merge-IsMerged beyond a b [] s f small n =
    rw s (record { same = rw f refl; sum = refl; nonempty = n })
merge-IsMerged beyond a b (c ∷ cs) s f small n = elim (Bool-cases ((c.size == 0) || c.used)) [
  | inl stop ↦ rw stop (record { same = rw f refl; sum = refl; nonempty = n })
  | inr go ↦
      let both : (b.size + c.size) % size_mod ≡ b.size + c.size = omega (arith, small) in
      let m =
        merge-IsMerged beyond a (record b { size = (b.size + c.size) % size_mod }) cs s f
          (omega (arith, small, both)) (omega (arith, n, both), n.1.1) in
      let unused : c.used ≡ false = ground (arith, go) in
      rw go (record {
        same = rw unused (m.same ∙ ap (λ x. used_blocks x cs) (omega (arith, both)));
        sum = omega (arith, m.sum, both);
        nonempty = m.nonempty;
      })
]

-- The blocks in use lie at the start of the list or above.
used_blocks-le :
    (a t len : ℕ) (bs : List Block) (f k : List (ℕ × ℕ))
    → used_blocks a bs ≡ f ++ (t, len) ∷ k
    → a ≤ t
unfolding used_blocks
used_blocks-le a t len [] [] k e = absurd cc
used_blocks-le a t len [] (y ∷ f) k e = absurd cc
used_blocks-le a t len (b ∷ bs) [] k e = elim (Bool-cases b.used) [
  | inl u ↦
      let h : (a, b.size) ∷ used_blocks (a + b.size) bs ≡ (t, len) ∷ k = ground (arith, e, u) in
      let q : a ≡ t = cc in omega arith
  | inr u ↦ omega (arith, used_blocks-le (a + b.size) t len bs [] k (ground (arith, e, u)))
]
used_blocks-le a t len (b ∷ bs) (y ∷ f) k e = elim (Bool-cases b.used) [
  | inl u ↦ omega (arith, used_blocks-le (a + b.size) t len bs f k (ground (arith, e, u)))
  | inr u ↦ omega (arith, used_blocks-le (a + b.size) t len bs (y ∷ f) k (ground (arith, e, u)))
]

-- What Free leaves of the blocks `bs`, with `rest` as those in use.
record Freed (beyond : Block) (a t : ℕ) (bs : List Block) (rest : List (ℕ × ℕ)) : Type 0 where
  blocks : List Block
  returns : free_block beyond t a bs ≡ ok blocks
  left : used_blocks a blocks ≡ rest
  sum : total blocks ≡ total bs
  nonempty : Nonempty blocks
  below : t ≤ a + total bs

Freed-here :
    (beyond : Block) (a : ℕ) (b : Block) (bs : List Block)
    → Stops beyond
    → b.used ≡ true
    → b.size + total bs < size_mod
    → Nonempty (b ∷ bs)
    → Freed beyond a a (b ∷ bs) (used_blocks (a + b.size) bs)
unfolding free_block total
Freed-here beyond a b bs s u small n =
    let m = merge-IsMerged beyond a (record b { used = false }) bs s refl small n in
    record {
      blocks = merge_blocks_from beyond (record b { used = false }) bs;
      returns = ground arith;
      left = m.same;
      sum = m.sum;
      nonempty = m.nonempty;
      below = omega arith;
    }

Freed-there :
    (beyond : Block) (a t : ℕ) (b : Block) (bs : List Block) (rest : List (ℕ × ℕ))
    → a < t
    → 0 < b.size
    → Freed beyond (a + b.size) t bs rest
    → (whole : List (ℕ × ℕ))
    → ((b.used ≡ true) × (whole ≡ (a, b.size) ∷ rest)) ⊎ ((b.used ≡ false) × (whole ≡ rest))
    → Freed beyond a t (b ∷ bs) whole
unfolding free_block total used_blocks
Freed-there beyond a t b bs rest lt pos f whole w = record {
  blocks = b ∷ f.blocks;
  returns = ground (arith, f.returns);
  left = ground (arith, f.left);
  sum = omega (arith, f.sum);
  nonempty = (pos, f.nonempty);
  below = omega (arith, f.below);
}

free_block-Freed :
    (beyond : Block) (a t len : ℕ) (bs : List Block) (f k : List (ℕ × ℕ))
    → Stops beyond
    → total bs < size_mod
    → Nonempty bs
    → used_blocks a bs ≡ f ++ (t, len) ∷ k
    → Freed beyond a t bs (f ++ k)
unfolding used_blocks total
free_block-Freed beyond a t len [] [] k s small n e = absurd cc
free_block-Freed beyond a t len [] (y ∷ f) k s small n e = absurd cc
free_block-Freed beyond a t len (b ∷ bs) [] k s small n e = elim (Bool-cases b.used) [
  | inl u ↦
      let h : (a, b.size) ∷ used_blocks (a + b.size) bs ≡ (t, len) ∷ k = ground (arith, e, u) in
      let q : a ≡ t = cc in
      let r : used_blocks (a + b.size) bs ≡ k = cc in
      subst (λ t. Freed beyond a t (b ∷ bs) k) q
        (subst (Freed beyond a a (b ∷ bs)) r (Freed-here beyond a b bs s u small n))
  | inr u ↦
      let h : used_blocks (a + b.size) bs ≡ [] ++ (t, len) ∷ k = ground (arith, e, u) in
      let lo = used_blocks-le (a + b.size) t len bs [] k h in
      Freed-there beyond a t b bs k (omega (arith, lo, n.0)) n.0
        (free_block-Freed beyond (a + b.size) t len bs [] k s (omega (arith, small)) n.1 h) k
        (inr (u, refl))
]
free_block-Freed beyond a t len (b ∷ bs) (y ∷ f) k s small n e = elim (Bool-cases b.used) [
  | inl u ↦
      let h : (a, b.size) ∷ used_blocks (a + b.size) bs ≡ y ∷ (f ++ (t, len) ∷ k) =
        ground (arith, e, u) in
      let q : (a, b.size) ≡ y = cc in
      let r : used_blocks (a + b.size) bs ≡ f ++ (t, len) ∷ k = cc in
      let lo = used_blocks-le (a + b.size) t len bs f k r in
      Freed-there beyond a t b bs (f ++ k) (omega (arith, lo, n.0)) n.0
        (free_block-Freed beyond (a + b.size) t len bs f k s (omega (arith, small)) n.1 r)
        (y ∷ f ++ k) (inl (u, cc))
  | inr u ↦
      let h : used_blocks (a + b.size) bs ≡ (y ∷ f) ++ (t, len) ∷ k = ground (arith, e, u) in
      let lo = used_blocks-le (a + b.size) t len bs (y ∷ f) k h in
      Freed-there beyond a t b bs (y ∷ f ++ k) (omega (arith, lo, n.0)) n.0
        (free_block-Freed beyond (a + b.size) t len bs (y ∷ f) k s (omega (arith, small)) n.1 h)
        (y ∷ f ++ k) (inr (u, refl))
]

-- Free on the data of a block in use succeeds and takes that block out of the blocks in use, and
-- nothing else, if the word behind the heap stops the merging; the heap stays well-formed.
pub free-Inserted :
    (beyond : Block) (h : Heap) (start len : ℕ) (rest : List (ℕ × ℕ))
    → IsHeap h
    → Stops beyond
    → Inserted (start, len) rest (used_blocks h.base h.blocks)
    → (g : Heap) × ((free beyond (start + header_size) h ≡ ok g)
        × (used_blocks g.base g.blocks ≡ rest)
        × IsHeap g)
unfolding free last_block
free-Inserted beyond h start len rest i s t =
    let f =
      free_block-Freed beyond h.base start len h.blocks t.front t.back s
        (omega (arith, i.inside, i.low)) i.nonempty t.new in
    let same : sub32 (start + header_size) header_size ≡ start =
      omega (arith, f.below, i.inside, i.low) in
    (
      record h { blocks = f.blocks },
      (
        ground (arith, f.returns, same),
        f.left ∙ sym t.old,
        record { inside = omega (arith, i.inside, f.sum); low = i.low; nonempty = f.nonempty },
      ),
    )

-- Memory that Allocate answered can be freed, and then the blocks in use are those from before the
-- allocation, if the word behind the heap stops the merging.
pub free-allocate :
    (beyond : Block) (size p : ℕ) (h g : Heap)
    → Stops beyond
    → IsAllocated size h p g
    → (k : Heap) × ((free beyond p g ≡ ok k)
        × (used_blocks k.base k.blocks ≡ used_blocks h.base h.blocks)
        × IsHeap k)
free-allocate beyond size p h g s w =
    subst
      (λ q.
        (k : Heap) × ((free beyond q g ≡ ok k)
          × (used_blocks k.base k.blocks ≡ used_blocks h.base h.blocks)
          × IsHeap k))
      (sym w.pointer)
      (free-Inserted beyond g w.start w.len (used_blocks h.base h.blocks) w.is_heap s w.inserted)

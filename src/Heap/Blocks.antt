-- ===== src/Heap/Blocks.antt =====
-- The blocks in use, and what the search for a block does to them.
use lt_micros.Base.{
  ℕ, ◌+◌, ◌-◌, ◌≤◌, ◌<◌, ◌≡◌, refl, ap, ◌⊎◌, inl, inr, none, some, List, [], ◌∷◌, ◌++◌, false,
  arith, ltb, leb, ◌||◌, if◌then◌else◌, Bool-cases,
}
use lt_micros.Heap.{Block, total, header_size, minimal_block_size, first_fit, split_block}

-- The addresses and sizes of the blocks in use, from an address on.
unfoldable pub used_blocks : ℕ → List Block → List (ℕ × ℕ)
used_blocks address [] = []
used_blocks address (b ∷ bs) =
    let rest = used_blocks (address + b.size) bs in
    if b.used then (address, b.size) ∷ rest else rest

-- `ys` is `xs` with `x` put in at one place.
pub record Inserted {ℓ} {A : Type ℓ} (x : A) (xs ys : List A) : Type ℓ where
  pub front : List A
  pub back : List A
  pub old : xs ≡ front ++ back
  pub new : ys ≡ front ++ x ∷ back

Inserted-cons {ℓ} :
    {A : Type ℓ} {x : A} {xs ys : List A} (y : A) → Inserted x xs ys → Inserted x (y ∷ xs) (y ∷ ys)
Inserted-cons y i = record {
  front = y ∷ i.front;
  back = i.back;
  old = ap (◌∷◌ y) i.old;
  new = ap (◌∷◌ y) i.new;
}

pub Inserted-head {ℓ} : {A : Type ℓ} (x : A) (xs : List A) → Inserted x xs (x ∷ xs)
Inserted-head x xs = record { front = []; back = xs; old = refl; new = refl }

-- A block of the heap in front keeps what was inserted behind it.
used_blocks-cons :
    (x : ℕ × ℕ) (a : ℕ) (b : Block) (bs cs : List Block)
    → Inserted x (used_blocks (a + b.size) bs) (used_blocks (a + b.size) cs)
    → Inserted x (used_blocks a (b ∷ bs)) (used_blocks a (b ∷ cs))
unfolding used_blocks
used_blocks-cons x a b bs cs i = elim (Bool-cases b.used) [
  | inl u ↦ rw u (Inserted-cons (a, b.size) i)
  | inr u ↦ rw u i
]

-- No block is empty.
abbrev pub Nonempty : List Block → Type 0
Nonempty [] = Unit {0}
Nonempty (b ∷ bs) = (0 < b.size) × Nonempty bs

-- The data at `p` belong to a block that was added to those in use, of `size` bytes at least, and
-- nothing else changed.
pub record Fits (size a : ℕ) (bs : List Block) (p : ℕ) (cs : List Block) : Type 0 where
  pub start : ℕ
  pub len : ℕ
  pub pointer : p ≡ start + header_size
  pub enough : size ≤ len
  pub low : a ≤ start
  pub high : start + len ≤ a + total bs
  pub inserted : Inserted (start, len) (used_blocks a bs) (used_blocks a cs)
  pub sum : total cs ≡ total bs
  pub nonempty : 0 < size → Nonempty bs → Nonempty cs

pub Fits-cons :
    (size a p : ℕ) (b : Block) (bs cs : List Block)
    → Fits size (a + b.size) bs p cs
    → Fits size a (b ∷ bs) p (b ∷ cs)
unfolding total
Fits-cons size a p b bs cs f = record {
  start = f.start;
  len = f.len;
  pointer = f.pointer;
  enough = f.enough;
  low = omega (arith, f.low);
  high = omega (arith, f.high);
  inserted = used_blocks-cons (f.start, f.len) a b bs cs f.inserted;
  sum = omega (arith, f.sum);
  nonempty = λ s n. (n.0, f.nonempty s n.1);
}

pub split_block-Fits :
    (size a : ℕ) (b : Block) (bs : List Block)
    → b.used ≡ false
    → size ≤ b.size
    → Fits size a (b ∷ bs) (a + header_size) (split_block size b bs)
unfolding split_block total used_blocks
split_block-Fits size a b bs free large =
    elim (Bool-cases (leb (header_size + minimal_block_size) (b.size - size))) [
      | inl h ↦
          let e : a + size + (b.size - size) ≡ a + b.size = omega (arith, large) in
          rw h (record {
            start = a;
            len = size;
            pointer = refl;
            enough = omega arith;
            low = omega arith;
            high = omega (arith, large);
            inserted = rw free (rw e (Inserted-head (a, size) (used_blocks (a + b.size) bs)));
            sum = omega (arith, large);
            nonempty = λ s n. (s, (ground (arith, h), n.1));
          })
      | inr h ↦ rw h (record {
        start = a;
        len = b.size;
        pointer = refl;
        enough = large;
        low = omega arith;
        high = omega arith;
        inserted = rw free (Inserted-head (a, b.size) (used_blocks (a + b.size) bs));
        sum = refl;
        nonempty = λ s n. n;
      })
    ]

pub first_fit-split_block :
    (size a : ℕ) (b : Block) (bs : List Block)
    → b.used ≡ false
    → size ≤ b.size
    → first_fit size a (b ∷ bs) ≡ some (a + header_size, split_block size b bs)
unfolding first_fit split_block
first_fit-split_block size a b bs f l = ground arith

-- Either the first block is split_block, or the search goes on behind it.
pub first_fit-cases :
    (size a : ℕ) (b : Block) (bs : List Block)
    → ((b.used ≡ false) × (size ≤ b.size))
      ⊎ (first_fit size a (b ∷ bs)
          ≡ elim (first_fit size (a + b.size) bs) [ none ↦ none | some (p, cs) ↦ some (p, b ∷ cs) ])
unfolding first_fit
first_fit-cases size a b bs = elim (Bool-cases (b.used || ltb b.size size)) [
  | inl h ↦ inr (ground arith)
  | inr h ↦ inl (ground arith, ground arith)
]

-- first_fit finds nothing, or a place that fits.
pub first_fit-Fits :
    (size a : ℕ) (bs : List Block)
    → (first_fit size a bs ≡ none)
      ⊎ ((p : ℕ) × ((cs : List Block) × (first_fit size a bs ≡ some (p, cs)) × Fits size a bs p cs))
unfolding first_fit
first_fit-Fits size a [] = inl refl
first_fit-Fits size a (b ∷ bs) = elim (first_fit-cases size a b bs) [
  | inl (f, l) ↦ inr (
    a + header_size,
    (
      split_block size b bs,
      first_fit-split_block size a b bs f l,
      split_block-Fits size a b bs f l,
    ),
  )
  | inr r ↦ elim (first_fit-Fits size (a + b.size) bs) [
    | inl n ↦ inl (ground (arith, r, n))
    | inr (p, (cs, e, f)) ↦ inr (p, (b ∷ cs, ground (arith, r, e), Fits-cons size a p b bs cs f))
  ]
]

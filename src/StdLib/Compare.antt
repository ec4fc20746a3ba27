-- ===== src/StdLib/Compare.antt =====
-- When StrCmp calls two strings equal, and what FirstIndexOf finds.
use lt_micros.Base.{
  ℕ, zero, suc, ◌+◌, ◌<◌, ◌≡◌, ◌≢◌, refl, ap, ◌∙◌, ◌↔◌, ◌⊎◌, inl, inr, some, List, [], ◌∷◌, false,
  arith, get_elem?, ◌==◌, Bool-cases,
}
use lt_micros.Base.Int.{ℤ, pos, negsuc, negate}
use lt_micros.StdLib.{str_cmp, str_cmp_from, first_index_of, first_index_from, char_key}
use lt_micros.Base.Lists.{AllBytes}

str_cmp_from_self : (s : List ℕ) → str_cmp_from s s ≡ pos 0
unfolding str_cmp_from
str_cmp_from_self [] = refl
str_cmp_from_self (c ∷ s) = ground (arith, str_cmp_from_self s)

str_cmp_from_nil : (s : List ℕ) → str_cmp_from s [] ≡ pos 0
unfolding str_cmp_from
str_cmp_from_nil [] = refl
str_cmp_from_nil (c ∷ s) = refl

str_cmp_from_same : (s t : List ℕ) → s ≡ t → str_cmp_from s t ≡ pos 0
str_cmp_from_same s t e = rw (← e) (str_cmp_from_self s)

key-injective : (c d : ℕ) → c < 256 → d < 256 → char_key c ≡ char_key d → c ≡ d
key-injective c d hc hd e = ground arith

-- On two strings that begin, a zero means equality.
str_cmp_from_eq :
    (c d : ℕ) (s t : List ℕ)
    → AllBytes (c ∷ s)
    → AllBytes (d ∷ t)
    → str_cmp_from (c ∷ s) (d ∷ t) ≡ pos 0
    → c ∷ s ≡ d ∷ t
unfolding str_cmp_from
str_cmp_from_eq c d [] [] bs bt e = ground (arith, key-injective c d bs.0 bt.0)
str_cmp_from_eq c d [] (y ∷ t) bs bt e = ground arith
str_cmp_from_eq c d (x ∷ s) [] bs bt e = ground arith
str_cmp_from_eq c d (x ∷ s) (y ∷ t) bs bt e =
    let tail : str_cmp_from (x ∷ s) (y ∷ t) ≡ pos 0 = ground arith in
    ground (arith, key-injective c d bs.0 bt.0, str_cmp_from_eq x y s t bs.1 bt.1 tail)

-- StrCmp answers 0 exactly when the strings are equal or one of them is empty: an empty string
-- compares equal to every string.
pub str_cmp_zero :
    (s t : List ℕ)
    → AllBytes s
    → AllBytes t
    → (str_cmp (some s) (some t) ≡ pos 0) ↔ ((s ≡ t) ⊎ (s ≡ []) ⊎ (t ≡ []))
unfolding str_cmp
str_cmp_zero [] t bs bt = (λ e. inr (inl refl), λ h. refl)
str_cmp_zero (c ∷ s) [] bs bt = (λ e. inr (inr refl), λ h. refl)
str_cmp_zero (c ∷ s) (d ∷ t) bs bt = (
  λ e. inl (str_cmp_from_eq c d s t bs bt e),
  λ h. elim h [
    | inl e ↦ str_cmp_from_same (c ∷ s) (d ∷ t) e
    | inr (inl e) ↦ absurd (cc)
    | inr (inr e) ↦ absurd (cc)
  ],
)

-- Swapping the strings changes the sign of StrCmp.
pub str_cmp_swap : (s t : List ℕ) → str_cmp (some t) (some s) ≡ negate (str_cmp (some s) (some t))
unfolding str_cmp
str_cmp_swap [] [] = refl
str_cmp_swap [] (d ∷ t) = refl
str_cmp_swap (c ∷ s) [] = refl
str_cmp_swap (c ∷ s) (d ∷ t) = ground (arith, str_cmp_swap s t)

-- The first place of `c` in `s`, or none.
abbrev pub FirstAt : List ℕ → ℕ → ℤ → Type 0
FirstAt s c (pos i) = (get_elem? s i ≡ some c) × ((j : ℕ) → j < i → get_elem? s j ≢ some c)
FirstAt s c (negsuc zero) = (j : ℕ) → get_elem? s j ≢ some c
FirstAt s c (negsuc (suc n)) = ⊥

skip_head :
    (d : ℕ) (s : List ℕ) (c : ℕ)
    → (d == c) ≡ false
    → (j : ℕ) → ((i : ℕ) → suc i ≡ j → get_elem? s i ≢ some c)
    → get_elem? (d ∷ s) j ≢ some c
skip_head d s c e zero h f = ground arith
skip_head d s c e (suc j) h f = h j refl f

-- The outcome of the loop from index `k` on.
abbrev Scanned : ℕ → List ℕ → ℕ → ℤ → Type 0
Scanned k s c r =
    ((i : ℕ) × (r ≡ pos (k + i))
      × (get_elem? s i ≡ some c)
      × ((j : ℕ) → j < i → get_elem? s j ≢ some c))
    ⊎ ((r ≡ negsuc 0) × ((j : ℕ) → get_elem? s j ≢ some c))

Scanned-first_index_from : (k : ℕ) (s : List ℕ) (c : ℕ) → Scanned k s c (first_index_from k s c)
unfolding first_index_from
Scanned-first_index_from k [] c = inr (refl, λ j e. cc)
Scanned-first_index_from k (d ∷ s) c = elim (Bool-cases (d == c)) [
  | inl e ↦ inl (0, ground arith, ground arith, λ j h. absurd (omega arith))
  | inr e ↦
      let skip : (j : ℕ)
          → ((i : ℕ) → suc i ≡ j → get_elem? s i ≢ some c)
          → get_elem? (d ∷ s) j ≢ some c =
        skip_head d s c e in
      elim (Scanned-first_index_from (k + 1) s c) [
        | inl (i, r, at_i, before) ↦
            inl (suc i, ground arith, at_i, λ j h. skip j λ i' e'. before i' (omega arith))
        | inr (r, nowhere) ↦ inr (ground arith, λ j. skip j λ i e'. nowhere i)
      ]
]

-- FirstIndexOf answers the first place of the character, or -1 where it does not occur.
pub first_index_of-FirstAt : (s : List ℕ) (c : ℕ) → FirstAt s c (first_index_of (some s) c)
unfolding first_index_of
first_index_of-FirstAt s c = elim (Scanned-first_index_from 0 s c) [
  | inl (i, r, at_i, before) ↦
      let e : first_index_from 0 s c ≡ pos i = r ∙ ap pos (omega arith) in rw e (at_i, before)
  | inr (r, nowhere) ↦ rw r nowhere
]

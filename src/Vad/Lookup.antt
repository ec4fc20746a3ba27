-- ===== src/Vad/Lookup.antt =====
-- What the searches of a chain find.
use lt_micros.Base.{
  ℕ, suc, ◌+◌, ◌<◌, ◌≤◌, ◌≡◌, ◌≢◌, refl, ◌⊎◌, inl, inr, some, List, [], ◌∷◌, ◌++◌, true, false,
  ◌&&◌, arith, get_elem?, length, ltb, leb, Bool-cases,
}
use lt_micros.Base.Status.{ok, err, not_found}
use lt_micros.Vad.{
  Vad, look_for_vad_from_address, vad_from, look_for_free_vad, free_from, look_for_free_vad_at,
  free_at_from,
}

-- The descriptors cover the addresses from `b` to `e`, one behind the other, with no gap.
abbrev pub Tiles : ℕ → ℕ → List Vad → Type 0
Tiles b e [] = b ≡ e
Tiles b e (v ∷ vs) =
    (v.base_address ≡ b) × (v.limit_address ≡ b + v.size) × (0 < v.size) × Tiles (b + v.size) e vs

pub Tiles-le : (b e : ℕ) (chain : List Vad) → Tiles b e chain → b ≤ e
Tiles-le b e [] t = omega arith
Tiles-le b e (v ∷ vs) t = omega (arith, Tiles-le (b + v.size) e vs t.3)

-- The descriptor at place `i` holds the address.
pub record Holder (address : ℕ) (chain : List Vad) (i : ℕ) : Type 0 where
  pub vad : Vad
  pub there : get_elem? chain i ≡ some vad
  pub from : vad.base_address ≤ address
  pub below : address < vad.limit_address

vad_from-Holder :
    (k address b e : ℕ) (chain : List Vad)
    → Tiles b e chain
    → b ≤ address
    → address < e
    → (i : ℕ) × (vad_from k address chain ≡ ok (k + i)) × Holder address chain i
unfolding vad_from
vad_from-Holder k address b e [] t lo hi = absurd (omega arith)
vad_from-Holder k address b e (v ∷ vs) t lo hi = elim (Bool-cases (ltb address v.limit_address)) [
  | inl h ↦
      (0, ground arith, record { vad = v; there = refl; from = omega arith; below = ground arith })
  | inr h ↦
      let (i, r, w) = vad_from-Holder (k + 1) address (b + v.size) e vs t.3 (ground arith) hi in
      (suc i, ground arith, record { vad = w.vad; there = w.there; from = w.from; below = w.below })
]

vad_from_outside :
    (k address b e : ℕ) (chain : List Vad)
    → Tiles b e chain
    → (address < b) ⊎ (e ≤ address)
    → vad_from k address chain ≡ err not_found
unfolding vad_from
vad_from_outside k address b e [] t o = refl
vad_from_outside k address b e (v ∷ vs) t o = ground (
  arith,
  Tiles-le (b + v.size) e vs t.3,
  vad_from_outside (k + 1) address (b + v.size) e vs t.3
      (omega (arith, Tiles-le (b + v.size) e vs t.3)),
)

-- In a chain without gaps LookForVadFromAddress finds the descriptor of every address of the
-- range, and answers STATUS_NOT_FOUND for every other.
pub look_for_vad-Tiles :
    (address b e : ℕ) (chain : List Vad)
    → address ≢ 0
    → Tiles b e chain
    → ((b ≤ address)
        × (address < e)
        × ((i : ℕ) × (look_for_vad_from_address address chain ≡ ok i) × Holder address chain i))
      ⊎ (((address < b) ⊎ (e ≤ address))
          × (look_for_vad_from_address address chain ≡ err not_found))
unfolding look_for_vad_from_address
look_for_vad-Tiles address b e chain real t = elim (Bool-cases (leb b address && ltb address e)) [
  | inl h ↦
      let (i, r, w) = vad_from-Holder 0 address b e chain t (ground arith) (ground arith) in
      inl (ground arith, ground arith, (i, ground arith, w))
  | inr h ↦
      let o : (address < b) ⊎ (e ≤ address) = ground arith in
      inr (o, ground (arith, vad_from_outside 0 address b e chain t o))
]

-- The first free descriptor of at least `size` bytes.
abbrev pub Unfit : ℕ → Vad → Type 0
Unfit size v = (v.free ≡ false) ⊎ (v.size < size)

abbrev pub AllUnfit : ℕ → List Vad → Type 0
AllUnfit size [] = Unit {0}
AllUnfit size (v ∷ vs) = Unfit size v × AllUnfit size vs

free_from_none :
    (k size : ℕ) (chain : List Vad) → AllUnfit size chain → free_from k size chain ≡ err not_found
unfolding free_from
free_from_none k size [] u = refl
free_from_none k size (v ∷ vs) u = ground (arith, free_from_none (k + 1) size vs u.1)

free_from_first :
    (k size : ℕ) (before : List Vad) (v : Vad) (behind : List Vad)
    → AllUnfit size before
    → v.free ≡ true
    → size ≤ v.size
    → free_from k size (before ++ v ∷ behind) ≡ ok (k + length before)
unfolding free_from
free_from_first k size [] v behind u f h = ground arith
free_from_first k size (w ∷ ws) v behind u f h =
    ground (arith, free_from_first (k + 1) size ws v behind u.1 f h)

-- LookForFreeVadOfMinimumSize is first fit: it settles on the first descriptor that is free and
-- large enough, and answers STATUS_NOT_FOUND when there is none.
pub look_for_free_vad_first :
    (size : ℕ) (before : List Vad) (v : Vad) (behind : List Vad)
    → size ≢ 0
    → AllUnfit size before
    → v.free ≡ true
    → size ≤ v.size
    → look_for_free_vad size (before ++ v ∷ behind) ≡ ok (length before)
unfolding look_for_free_vad
look_for_free_vad_first size before v behind real u f h =
    ground (arith, free_from_first 0 size before v behind u f h)

pub look_for_free_vad_none :
    (size : ℕ) (chain : List Vad)
    → size ≢ 0
    → AllUnfit size chain
    → look_for_free_vad size chain ≡ err not_found
unfolding look_for_free_vad
look_for_free_vad_none size chain real u = ground (arith, free_from_none 0 size chain u)

-- The search by address passes over a first descriptor that does not hold the address, and then
-- settles on the next one if it is free and large enough, wherever the address lies.
pub look_for_free_vad_at_next :
    (address size : ℕ) (v w : Vad) (vs : List Vad)
    → address ≢ 0
    → size ≢ 0
    → (address < v.base_address) ⊎ (v.limit_address ≤ address)
    → w.free ≡ true
    → size ≤ w.size
    → look_for_free_vad_at address size (v ∷ w ∷ vs) ≡ ok 1
unfolding look_for_free_vad_at free_at_from
look_for_free_vad_at_next address size v w vs ra rs o f h = ground arith

pub Tiles-lt : (b e : ℕ) (v : Vad) (vs : List Vad) → Tiles b e (v ∷ vs) → b < e
Tiles-lt b e v vs t = omega (arith, Tiles-le (b + v.size) e vs t.3)

-- ===== src/Vad/Bump.antt =====
-- The chains that Allocate alone builds.
use lt_micros.Base.{
  ℕ, ◌+◌, ◌/◌, ◌%◌, ◌<◌, ◌≤◌, ◌≡◌, ◌≢◌, refl, ap, List, [], ◌∷◌, ◌++◌, Bool, true, false, arith,
  length, inl, inr,
}
use lt_micros.Base.Words.{page_size, u32_mod, null}
use lt_micros.Base.Status.{ok, err, not_found}
use lt_micros.Mapper.{Mapper}
use lt_micros.Vad.{Vad}
use lt_micros.Vad.Lookup.{Tiles, AllUnfit, look_for_free_vad_none}
use lt_micros.Vad.Split.{Splittable, second_part}
use lt_micros.Vad.Reserve.{reserve_list_virtual}
use lt_micros.Vad.Operations.{outcome, allocate}
use lt_micros.Vad.Allocate.{allocated_part, allocate_lem}

abbrev pub AllInUse : List Vad → Type 0
AllInUse [] = Unit {0}
AllInUse (v ∷ vs) = (v.free ≡ false) × AllInUse vs

-- Descriptors in use cover the addresses from `b` on, and one free descriptor `v` the rest up to
-- `e`. Process::Create begins with no descriptor in use.
pub record IsBump (b e : ℕ) (used : List Vad) (v : Vad) : Type 0 where
  pub tiles : Tiles b e (used ++ v ∷ [])
  pub in_use : AllInUse used
  pub free : v.free ≡ true
  pub aligned : v.base_address % page_size ≡ 0
  pub based : b ≢ 0
  pub low : e < u32_mod

AllInUse-unfit : (size : ℕ) (used : List Vad) → AllInUse used → AllUnfit size used
AllInUse-unfit size [] u = tt
AllInUse-unfit size (v ∷ vs) u = (inl u.0, AllInUse-unfit size vs u.1)

AllUnfit-append :
    (size : ℕ) (used : List Vad) (v : Vad)
    → AllUnfit size used
    → v.size < size
    → AllUnfit size (used ++ v ∷ [])
AllUnfit-append size [] v u f = (inr f, tt)
AllUnfit-append size (w ∷ ws) v u f = (u.0, AllUnfit-append size ws v u.1 f)

append_one : (xs : List Vad) (x y : Vad) → xs ++ x ∷ y ∷ [] ≡ (xs ++ x ∷ []) ++ y ∷ []
append_one [] x y = refl
append_one (w ∷ ws) x y = ap (◌∷◌ w) (append_one ws x y)

AllInUse-append :
    (used : List Vad) (v : Vad) → AllInUse used → v.free ≡ false → AllInUse (used ++ v ∷ [])
AllInUse-append [] v u f = (f, tt)
AllInUse-append (w ∷ ws) v u f = (u.0, AllInUse-append ws v u.1 f)

-- The last descriptor of a chain without gaps.
pub Tiles-last :
    (b e : ℕ) (used : List Vad) (v : Vad)
    → Tiles b e (used ++ v ∷ [])
    → (b ≤ v.base_address) × (v.base_address + v.size ≡ e) × (v.limit_address ≡ e)
Tiles-last b e [] v t = omega arith
Tiles-last b e (w ∷ ws) v t = omega (arith, Tiles-last (b + w.size) e ws v t.3)

-- Exchanging the last descriptor for two that cover its addresses leaves no gap.
Tiles-split :
    (b e : ℕ) (used : List Vad) (v x y : Vad)
    → Tiles b e (used ++ v ∷ [])
    → x.base_address ≡ v.base_address
    → x.limit_address ≡ v.base_address + x.size
    → y.base_address ≡ v.base_address + x.size
    → y.limit_address ≡ v.base_address + v.size
    → 0 < x.size
    → x.size + y.size ≡ v.size
    → 0 < y.size
    → Tiles b e ((used ++ x ∷ []) ++ y ∷ [])
Tiles-split b e [] v x y t xb xl yb yl xs sum ys = omega arith
Tiles-split b e (w ∷ ws) v x y t xb xl yb yl xs sum ys =
    (t.0, t.1, t.2, Tiles-split (b + w.size) e ws v x y t.3 xb xl yb yl xs sum ys)

module _ (b e size : ℕ) (used : List Vad) (v : Vad) (bump : IsBump b e used v) where
  last_Splittable : 0 < size → size + page_size < v.size → Splittable v size
  last_Splittable positive room =
      let last = Tiles-last b e used v bump.tiles in
      record {
        positive = positive;
        room = room;
        based = omega (arith, last, bump.based);
        low = omega (arith, last, bump.low);
      }

  -- The chain after an allocation is again of this shape.
  pub IsBump-allocated :
      0 < size
      → size + page_size < v.size
      → IsBump b e (used ++ allocated_part v size ∷ []) (second_part v size)
  IsBump-allocated positive room = record {
    tiles =
        Tiles-split b e used v (allocated_part v size) (second_part v size) bump.tiles refl refl
          refl refl (omega arith) (omega arith) (omega arith);
    in_use = AllInUse-append used (allocated_part v size) bump.in_use refl;
    free = refl;
    aligned = omega (arith, bump.aligned);
    based = bump.based;
    low = bump.low;
  }

module _ (env : Mapper) (fuel directory b e size : ℕ) (m : env.Machine) (used : List Vad) (v : Vad)
    (bump : IsBump b e used v) (positive : 0 < size) (real : directory ≢ null) where
  -- While the free descriptor has more than a page beyond the request, Allocate without physical
  -- pages succeeds: the answer is a descriptor in use with at least `size` bytes, nothing else
  -- changes, and the chain keeps its shape and covers the same addresses.
  pub allocate-IsBump :
      size + page_size < v.size
      → size / page_size + 1 < fuel
      → let r = allocate env fuel true size directory false (used ++ v ∷ []) m in
        (r.result ≡ ok (length used))
        × (r.chain ≡ (used ++ allocated_part v size ∷ []) ++ second_part v size ∷ [])
        × IsBump b e (used ++ allocated_part v size ∷ []) (second_part v size)
        × (size ≤ (allocated_part v size).size)
  allocate-IsBump room enough =
      let s = last_Splittable b e size used v bump positive room in
      rw
        (allocate_lem env fuel directory size false m _ used v
          (AllInUse-unfit size used bump.in_use) bump.free s bump.aligned real enough
          (reserve_list_virtual env directory _ _) [])
        (
          refl,
          append_one used (allocated_part v size) (second_part v size),
          IsBump-allocated b e size used v bump positive room,
          omega arith,
        )

  -- When the request is larger than what is left, Allocate answers STATUS_NOT_FOUND and changes
  -- neither the chain nor the machine.
  pub allocate_bump_full :
      (physical allocated : Bool)
      → v.size < size
      → allocate env fuel allocated size directory physical (used ++ v ∷ []) m
        ≡ outcome (err not_found) (used ++ v ∷ []) m
  unfolding allocate
  allocate_bump_full physical allocated small = ground (
    arith,
    look_for_free_vad_none size (used ++ v ∷ []) (omega arith)
        (AllUnfit-append size used v (AllInUse-unfit size used bump.in_use) small),
  )

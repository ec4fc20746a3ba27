-- ===== src/Vad/Frames.antt =====
-- ReservePages over the physical allocator of this kernel: the frames behind the pages.
use mathlib.Core.Path.{subst}
use mathlib.Core.Option.{some-injective}
use lt_micros.Base.{
  sym, ℕ, ◌*◌, ◌/◌, ◌%◌, ◌<◌, ◌≤◌, ◌≡◌, ◌≢◌, refl, ap, some, List, [], ◌∷◌, true, false, arith,
  length, inl, inr, Option-cases,
}
use lt_micros.Base.Lists.{AllBytes}
use lt_micros.Base.Words.{page_size}
use lt_micros.Mapper.{Mapping, Recorded, recorder}
use lt_micros.Pmm.{mem_bitmap_size, no_page}
use lt_micros.Pmm
use lt_micros.Pmm.Bitmap.{is_used}
use lt_micros.Pmm.Search.{FirstFree, FirstFree-cases}
use lt_micros.Pmm.Laws.{
  get_free_page_lowest, get_free_page_full, get_free_page-AllBytes, length-get_free_page,
}
use lt_micros.Vad.Operations.{reserve_page, flags_present}
use lt_micros.Vad.Reserve.{reserve_list}

-- No mapping of the list uses frame `p`.
abbrev pub Absent : ℕ → List Mapping → Type 0
Absent p [] = Unit {0}
Absent p (x ∷ xs) = (x.p_addr ≢ p) × Absent p xs

-- The frames of the mappings are in use in the bitmap, and no two mappings share one.
abbrev pub IsOwned : List ℕ → List Mapping → Type 0
IsOwned bm [] = Unit {0}
IsOwned bm (x ∷ xs) =
    (is_used bm (x.p_addr / page_size) ≡ true) × Absent x.p_addr xs × IsOwned bm xs

IsOwned-mono :
    (bm bm' : List ℕ) (ms : List Mapping)
    → ((q : ℕ) → is_used bm q ≡ true → is_used bm' q ≡ true)
    → IsOwned bm ms
    → IsOwned bm' ms
IsOwned-mono bm bm' [] up o = tt
IsOwned-mono bm bm' (x ∷ xs) up o = (up _ o.0, o.1, IsOwned-mono bm bm' xs up o.2)

-- A free frame is in no mapping.
Absent-free :
    (bm : List ℕ) (page : ℕ) (ms : List Mapping)
    → is_used bm page ≡ false
    → IsOwned bm ms
    → Absent (page * page_size) ms
Absent-free bm page [] f o = tt
Absent-free bm page (x ∷ xs) f o = (
  λ e.
      let e' : x.p_addr / page_size ≡ page = omega arith in ground (arith, ap (is_used bm) e', o.0),
  Absent-free bm page xs f o.2,
)

-- The bitmap has an entry for every page at most, and its entries are bytes.
pub record IsSound (m : Recorded) : Type 0 where
  pub bytes : AllBytes m.bitmap
  pub size : length m.bitmap ≤ mem_bitmap_size
  pub owned : IsOwned m.bitmap m.mapped

-- What the allocator's answer leads to.
abbrev pub took : ℕ → ℕ → Recorded → Recorded
took directory v m = record {
  bitmap = (Pmm.get_free_page m.bitmap).1;
  current = m.current;
  mapped =
      record {
        v_addr = v;
        p_addr = (Pmm.get_free_page m.bitmap).0;
        flags = flags_present;
        directory = directory;
        current = m.current;
      }
      ∷ m.mapped;
}

pub took-IsSound :
    (directory v page : ℕ) (m : Recorded)
    → IsSound m
    → FirstFree m.bitmap page
    → IsSound (took directory v m)
took-IsSound directory v page m s f =
    let got = get_free_page_lowest m.bitmap s.bytes page s.size f in
    let addr : (Pmm.get_free_page m.bitmap).0 / page_size ≡ page = omega (arith, got.0) in
    record {
      bytes = get_free_page-AllBytes m.bitmap s.bytes;
      size = omega (arith, length-get_free_page m.bitmap, s.size);
      owned = (
        ground (arith, got.1 page, addr),
        rw got.0 (Absent-free m.bitmap page m.mapped f.free s.owned),
        IsOwned-mono m.bitmap _ m.mapped (λ q h. ground (arith, got.1 q)) s.owned,
      );
    }

-- Pages that are in use stay so.
took_mono :
    (directory v page q : ℕ) (m : Recorded)
    → IsSound m
    → FirstFree m.bitmap page
    → is_used m.bitmap q ≡ true
    → is_used (took directory v m).bitmap q ≡ true
took_mono directory v page q m s f h =
    ground (arith, (get_free_page_lowest m.bitmap s.bytes page s.size f).1 q)

reserve_page-took :
    (directory v : ℕ) (m m' : Recorded)
    → reserve_page recorder directory true v m ≡ some m'
    → m' ≡ took directory v m
unfolding reserve_page
reserve_page-took directory v m m' e = ground arith

-- Every bit of the bitmap is set.
abbrev pub IsFull : List ℕ → Type 0
IsFull bm = (q : ℕ) → q < 8 * length bm → is_used bm q ≡ true

-- With memory used up GetFreePage's answer is not taken for a failure: the page is mapped to the
-- frame at 0xFFFFFFFF, and nothing is reserved.
pub reserve_page_full :
    (directory v : ℕ) (m : Recorded)
    → IsFull m.bitmap
    → reserve_page recorder directory true v m
      ≡ some (record m {
        mapped =
            record {
              v_addr = v;
              p_addr = no_page;
              flags = flags_present;
              directory = directory;
              current = m.current;
            }
            ∷ m.mapped;
      })
unfolding reserve_page
reserve_page_full directory v m full = rw ((get_free_page_full m.bitmap full).0, reserve_page) refl

reserve_list_full :
    (directory : ℕ) (addrs : List ℕ) (m m' : Recorded)
    → IsFull m.bitmap
    → reserve_list recorder directory true addrs m ≡ some m'
    → m'.bitmap ≡ m.bitmap
unfolding reserve_list
reserve_list_full directory [] m m' full e = ground arith
reserve_list_full directory (a ∷ addrs) m m' full e =
    reserve_list_full directory addrs _ m' full
      (rw (reserve_page_full directory a m full, reserve_list) at e)

reserve_list-cons :
    (directory a : ℕ) (addrs : List ℕ) (m m' : Recorded)
    → reserve_list recorder directory true (a ∷ addrs) m ≡ some m'
    → reserve_list recorder directory true addrs (took directory a m) ≡ some m'
unfolding reserve_list
reserve_list-cons directory a addrs m m' e =
    elim (Option-cases (reserve_page recorder directory true a m)) [
      | inl n ↦ absurd (ground arith)
      | inr (m'', s) ↦ ground (arith, reserve_page-took directory a m m'' s)
    ]

-- `new` is `old` with a mapping of each of the addresses in front, the last address first: to a frame
-- that begins a page, with the flags of a page that is present, in the given page directory.
abbrev pub IsMapped : (directory current : ℕ) → List ℕ → (old new : List Mapping) → Type 0
IsMapped directory current [] old new = new ≡ old
IsMapped directory current (a ∷ addrs) old new =
    (frame : ℕ) × (frame % page_size ≡ 0)
    × IsMapped directory current addrs
        (record { v_addr = a; p_addr = frame; flags = 7; directory = directory; current = current }
          ∷ old)
        new

-- If a page is left free at the end, the reservation maps each of the addresses in turn, to a page of
-- memory, as present, and keeps the mappings from before; the machine stays sound, so that each frame is
-- in use in the bitmap and that no two mappings share one.
pub reserve_list-IsSound :
    (directory : ℕ) (addrs : List ℕ) (m m' : Recorded)
    → IsSound m
    → reserve_list recorder directory true addrs m ≡ some m'
    → ¬ IsFull m'.bitmap
    → IsSound m' × IsMapped directory m.current addrs m.mapped m'.mapped
unfolding reserve_list
reserve_list-IsSound directory [] m m' s e left = (
  subst IsSound (some-injective m m' e) s,
  sym (ap (λ (n : Recorded). n.mapped) (some-injective m m' e)),
)
reserve_list-IsSound directory (a ∷ addrs) m m' s e left = elim (FirstFree-cases m.bitmap) [
  | inl (page, f) ↦
      let got = get_free_page_lowest m.bitmap s.bytes page s.size f in
      let (sound, others) =
        reserve_list-IsSound directory addrs (took directory a m) m'
          (took-IsSound directory a page m s f) (reserve_list-cons directory a addrs m m' e) left in
      (sound, ((Pmm.get_free_page m.bitmap).0, omega (arith, got.0), others))
  | inr full ↦
      absurd (left (subst IsFull (sym (reserve_list_full directory (a ∷ addrs) m m' full e)) full))
]

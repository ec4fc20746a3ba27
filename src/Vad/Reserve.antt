-- ===== src/Vad/Reserve.antt =====
-- ReservePages: the pages that it maps, when it ends, and when it does not.
use lt_micros.Base.{
  ℕ, zero, suc, ◌+◌, ◌-◌, ◌*◌, ◌/◌, ◌%◌, ◌<◌, ◌≤◌, ◌≡◌, refl, Option, none, some, List, [], ◌∷◌,
  Bool, false, arith, inl, inr, Option-cases,
}
use lt_micros.Base.Words.{page_size, u32_mod, add32}
use lt_micros.Base.Status.{ok, running}
use lt_micros.Mapper.{Mapper}
use lt_micros.Vad.{Vad}
use lt_micros.Vad.Operations.{reserve_page, reserve_from, reserve_pages, flags_absent}

-- The addresses of `n` pages from `v_addr` on.
unfoldable pub page_run : ℕ → ℕ → List ℕ
page_run v_addr zero = []
page_run v_addr (suc n) = v_addr ∷ page_run (v_addr + page_size) n

module _ (env : Mapper) where
  open env use {Machine, current_directory, set_directory}

  -- The pages of a list reserved in turn.
  unfoldable pub reserve_list : ℕ → Bool → List ℕ → Machine → Option Machine
  reserve_list directory physical [] m = some m
  reserve_list directory physical (a ∷ addrs) m = elim (reserve_page env directory physical a m) [
    | none ↦ none
    | some m' ↦ reserve_list directory physical addrs m'
  ]

  reserve_from_list :
      (fuel n directory : ℕ) (physical : Bool) (limit v_addr : ℕ) (m m' : Machine)
      → n < fuel
      → limit ≤ v_addr + page_size * n
      → v_addr + page_size * n < limit + page_size
      → v_addr + page_size * n < u32_mod
      → reserve_list directory physical (page_run v_addr n) m ≡ some m'
      → reserve_from env fuel directory physical limit v_addr m ≡ (ok tt, m')
  unfolding reserve_from reserve_list page_run
  reserve_from_list zero n d ph limit v m m' f hi lo word e = absurd (omega arith)
  reserve_from_list (suc fuel) zero d ph limit v m m' f hi lo word e = ground arith
  reserve_from_list (suc fuel) (suc n) d ph limit v m m' f hi lo word e =
      elim (Option-cases (reserve_page env d ph v m)) [
        | inl none_left ↦ absurd (ground arith)
        | inr (m'', s) ↦ ground (
          arith,
          reserve_from_list fuel n d ph limit (v + page_size) m'' m' (omega arith) (omega arith)
              (omega arith) (omega arith),
        )
      ]

  -- Virtual reservation never fails.
  unfoldable pub reserve_virtual : ℕ → List ℕ → Machine → Machine
  reserve_virtual directory [] m = m
  reserve_virtual directory (a ∷ addrs) m =
      reserve_virtual directory addrs (env.add_page a 0 flags_absent directory m)

  pub reserve_list_virtual :
      (directory : ℕ) (addrs : List ℕ) (m : Machine)
      → reserve_list directory false addrs m ≡ some (reserve_virtual directory addrs m)
  unfolding reserve_list reserve_virtual reserve_page
  reserve_list_virtual directory [] m = refl
  reserve_list_virtual directory (a ∷ addrs) m = reserve_list_virtual directory addrs _

  -- The number of pages that the loop visits.
  abbrev pub page_count : Vad → ℕ
  page_count v = (v.limit_address - v.base_address + (page_size - 1)) / page_size

  -- Given fuel for every page of a descriptor that begins at or below its end and ends a page below
  -- 2 ^ 32 or more, and if each of the pages can be reserved in turn, ReservePages reserves each of them
  -- once, lowest first, under the given page directory, then switches back, and succeeds.
  pub reserve_pages_list :
      (fuel : ℕ) (v : Vad) (directory : ℕ) (physical : Bool) (m m' : Machine)
      → page_count v < fuel
      → v.base_address ≤ v.limit_address
      → v.limit_address + page_size ≤ u32_mod
      → reserve_list directory physical
          (page_run v.base_address (page_count v))
          (set_directory directory m)
        ≡ some m'
      → reserve_pages env fuel v directory physical m
        ≡ (ok tt, set_directory (current_directory m) m')
  unfolding reserve_pages
  reserve_pages_list fuel v directory physical m m' f order word e =
      rw
        (
          reserve_from_list fuel (page_count v) directory physical v.limit_address v.base_address
              (set_directory directory m) m' f (omega arith) (omega arith) (omega arith) e,
          reserve_pages,
        )
        refl

  -- A descriptor that ends within the last page of the address space is never done: the address
  -- wraps round to 0, below the limit.
  pub reserve_from_endless :
      (fuel directory limit v_addr : ℕ) (m : Machine)
      → v_addr % page_size ≡ 0
      → v_addr < u32_mod
      → u32_mod - page_size < limit
      → (reserve_from env fuel directory false limit v_addr m).0 ≡ running
  unfolding reserve_from reserve_page
  reserve_from_endless zero d limit v m aligned word high = refl
  reserve_from_endless (suc fuel) d limit v m aligned word high = ground (
    arith,
    reserve_from_endless fuel d limit (add32 v page_size) (env.add_page v 0 flags_absent d m)
        (omega arith) (omega arith) high,
  )

-- ===== src/PagePool/Chains.antt =====
-- The two lists of the pool as sequences of blocks.
use lt_micros.Base.{
  ℕ, suc, ◌≡◌, ◌≢◌, refl, Option, none, some, List, [], ◌∷◌, true, arith, ◌∙◌, inl, inr, Bool-cases,
}
use lt_micros.Base.Status.{ok}
use lt_micros.Pmm.{release_page}
use lt_micros.PagePool.{
  PageBlock, PagePool, update, update_some, find_used, is_head, unlink, make_available, free,
}

-- From `at` along `next` the blocks are those of the list.
abbrev pub Chain : (ℕ → PageBlock) → Option ℕ → List ℕ → Type 0
Chain blocks at [] = at ≡ none
Chain blocks at (i ∷ is) = (at ≡ some i) × Chain blocks (blocks i).next is

abbrev pub Apart : ℕ → List ℕ → Type 0
Apart i [] = Unit {0}
Apart i (j ∷ js) = (j ≢ i) × Apart i js

-- Only the `next` of block `i` differs.
abbrev Relinked : ℕ → Option ℕ → (ℕ → PageBlock) → (ℕ → PageBlock) → Type 0
Relinked i next old new = ((new i).next ≡ next) × ((j : ℕ) → j ≢ i → (new j).next ≡ (old j).next)

Chain-Relinked :
    (i : ℕ) (next at : Option ℕ) (old new : ℕ → PageBlock) (is : List ℕ)
    → Relinked i next old new
    → Apart i is
    → Chain old at is
    → Chain new at is
Chain-Relinked i next at old new [] r a c = c
Chain-Relinked i next at old new (j ∷ js) r a c =
    (c.0, rw (r.1 j a.0) (Chain-Relinked i next (old j).next old new js r a.1 c.1))

-- A change that keeps `next` everywhere.
update_some-next :
    (blocks : ℕ → PageBlock) (at prev : Option ℕ) (j : ℕ)
    → (update_some blocks at (λ b. record b { prev = prev }) j).next ≡ (blocks j).next
unfolding update_some update
update_some-next blocks none prev j = refl
update_some-next blocks (some i) prev j = ground arith

made_available-Relinked :
    (blocks : ℕ → PageBlock) (i a : ℕ)
    → a ≢ i
    → Relinked i (some a) blocks (
        update
          (update blocks a (λ b. record b { prev = some i }))
          i
          (λ b. record b { next = some a; available = true }))
unfolding update
made_available-Relinked blocks i a apart = (ground arith, λ j h. ground (arith, h))

unlink-next : (pool : PagePool) (i j : ℕ) → ((unlink pool i).blocks j).next ≡ (pool.blocks j).next
unfolding unlink update
unlink-next pool i j = elim (Bool-cases (is_head pool.used_page_list i)) [
  | inl h ↦ rw h refl
  | inr h ↦
      let next = (pool.blocks i).next in
      rw h (
        update_some-next (update pool.blocks i (λ b. record b { prev = next })) next next j
        ∙ ground arith)
]

-- Free of the block `i`, found in the used list, with `a` the first available one.
record IsFreed (pool : PagePool) (i a p_addr : ℕ) : Type 0 where
  after : PagePool
  returns : make_available (unlink pool i) i p_addr ≡ ok after
  first : after.avail_page_list ≡ some i
  used : after.used_page_list ≡ (unlink pool i).used_page_list
  links : Relinked i (some a) pool.blocks after.blocks

unlink-avail : (pool : PagePool) (i : ℕ) → (unlink pool i).avail_page_list ≡ pool.avail_page_list
unfolding unlink
unlink-avail pool i = elim (Bool-cases (is_head pool.used_page_list i)) [
  | inl h ↦ rw h refl
  | inr h ↦ rw h refl
]

make_available-IsFreed :
    (pool : PagePool) (i a p_addr : ℕ)
    → pool.avail_page_list ≡ some a
    → a ≢ i
    → IsFreed pool i a p_addr
unfolding make_available
make_available-IsFreed pool i a p_addr e apart =
    let r = made_available-Relinked (unlink pool i).blocks i a apart in
    record {
      after = record (unlink pool i) {
        blocks =
            update (update (unlink pool i).blocks a (λ b. record b { prev = some i })) i
              (λ b. record b { next = some a; available = true });
        avail_page_list = some i;
        bitmap = release_page (unlink pool i).bitmap p_addr;
      };
      returns = ground (arith, unlink-avail pool i, e);
      first = refl;
      used = refl;
      links = (r.0, λ j h. r.1 j h ∙ unlink-next pool i j);
    }

unlink_inner :
    (pool : PagePool) (u i : ℕ)
    → pool.used_page_list ≡ some u
    → u ≢ i
    → (unlink pool i).used_page_list ≡ some u
unfolding unlink is_head
unlink_inner pool u i e h = ground (arith, e, h)

-- Free of a used page that is not the head of the used list, but the one behind it, leaves it on
-- that list, and moves it to the front of the available list: from there on the two lists are one.
pub free_inner :
    (fuel u v a p_addr : ℕ) (us others : List ℕ) (pool : PagePool)
    → Chain pool.blocks pool.used_page_list (u ∷ v ∷ us)
    → Chain pool.blocks pool.avail_page_list (a ∷ others)
    → u ≢ v
    → Apart v (a ∷ others)
    → (pool.blocks u).addr ≢ (pool.blocks v).addr
    → (after : PagePool) × ((free (suc (suc fuel)) pool (p_addr, (pool.blocks v).addr) ≡ ok after)
        × Chain after.blocks after.used_page_list (u ∷ v ∷ a ∷ others)
        × Chain after.blocks after.avail_page_list (v ∷ a ∷ others))
unfolding free find_used
free_inner fuel u v a p_addr us others pool used avail uv apart addrs =
    let f = make_available-IsFreed pool v a p_addr avail.0 apart.0 in
    let found : find_used (suc (suc fuel)) pool.blocks (pool.blocks v).addr pool.used_page_list
        ≡ ok (some v) =
      ground (arith, used.0, used.1.0, addrs) in
    let rest =
      Chain-Relinked v (some a) (pool.blocks a).next pool.blocks f.after.blocks others f.links
        apart.1 avail.1 in
    let tail : Chain f.after.blocks (f.after.blocks v).next (a ∷ others) =
      (f.links.0, rw (f.links.1 a apart.0) rest) in
    (
      f.after,
      (
        ground (arith, found, f.returns),
        (f.used ∙ unlink_inner pool u v used.0 uv, (f.links.1 u uv ∙ used.1.0, tail)),
        (f.first, tail),
      ),
    )

unlink_head :
    (pool : PagePool) (i : ℕ)
    → pool.used_page_list ≡ some i
    → (unlink pool i).used_page_list ≡ (pool.blocks i).next
unfolding unlink is_head
unlink_head pool i e = ground (arith, e)

-- Free of the page at the head of the used list moves its block to the front of the available list,
-- while that list is not empty, and leaves the rest of both lists as they were.
pub free_head :
    (fuel v a p_addr : ℕ) (us others : List ℕ) (pool : PagePool)
    → Chain pool.blocks pool.used_page_list (v ∷ us)
    → Chain pool.blocks pool.avail_page_list (a ∷ others)
    → Apart v us
    → Apart v (a ∷ others)
    → (after : PagePool) × ((free (suc fuel) pool (p_addr, (pool.blocks v).addr) ≡ ok after)
        × Chain after.blocks after.used_page_list us
        × Chain after.blocks after.avail_page_list (v ∷ a ∷ others))
unfolding free find_used
free_head fuel v a p_addr us others pool used avail clear apart =
    let f = make_available-IsFreed pool v a p_addr avail.0 apart.0 in
    let found : find_used (suc fuel) pool.blocks (pool.blocks v).addr pool.used_page_list
        ≡ ok (some v) =
      ground (arith, used.0) in
    let rest =
      Chain-Relinked v (some a) (pool.blocks a).next pool.blocks f.after.blocks others f.links
        apart.1 avail.1 in
    let kept =
      Chain-Relinked v (some a) (pool.blocks v).next pool.blocks f.after.blocks us f.links clear
        used.1 in
    (
      f.after,
      (
        ground (arith, found, f.returns),
        rw (f.used ∙ unlink_head pool v used.0) kept,
        (f.first, (f.links.0, rw (f.links.1 a apart.0) rest)),
      ),
    )

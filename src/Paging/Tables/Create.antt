-- ===== src/Paging/Tables/Create.antt =====
-- pgdir_walk and page_insert where the directory has no table yet for the address.
use sebopesyslab.Base.{
  ℕ, ◌+◌, ◌*◌, ◌%◌, ◌≤◌, ◌<◌, ◌≡◌, refl, sym, ap, ◌∙◌, true, false, arith, ◌⊎◌, some, List, [], ◌∷◌,
  minus_one, eq→==, ne→==_false,
}
use sebopesyslab.Base.Action.{ok}
use sebopesyslab.Kernel.{update}
use sebopesyslab.Paging.{
  Vm, Page, null, npages, nr_pte, page_size, slot, ptx, is_present, frame_of, frame,
}
use sebopesyslab.Paging.Pool.{inc16}
use sebopesyslab.Paging.Pool.FreeList.{
  FreeList, IsPage, Pops, page_alloc-Pops, counted, page_incref-counted, page_alloc-nil,
}
use sebopesyslab.Paging.Tables.{pgdir_walk, page_insert, pte_pwu}
use sebopesyslab.Paging.Tables.Walk.{
  dir_slot, pte_of, HasTable, load-ok, store-ok, slot-bound, pgdir_walk-some,
}
use sebopesyslab.Paging.Tables.Insert.{with_word}

-- The new table is page `x`, and the walk goes on in `out`.
pub record Creates (dir va : ℕ) (x : Page) (xs : List Page) (m : Vm) : Type 0 where
  pub out : Vm
  pub ends : pgdir_walk dir va true m ≡ ok (some (pte_of out.words dir va)) out
  pub has_table : HasTable out.words dir va
  pub leads : frame_of (out.words (dir_slot dir va)) ≡ frame x
  pub empty : (i : ℕ) → i < nr_pte → out.words (slot (frame x) i) ≡ 0
  pub free : FreeList out xs
  pub refs : out.refs ≡ update m.refs x (inc16 (m.refs x))
  pub continues :
      (p : Page) (perm : ℕ) → page_insert dir p va perm m ≡ page_insert dir p va perm out

module _ (dir va : ℕ) (x : Page) (xs : List Page) (m : Vm) where
  -- What page_alloc clears does not hold the directory.
  abbrev pub Clear : Type 0
  Clear = (frame x + 4 ≤ npages) × ((dir < frame x) ⊎ (frame x + 4 ≤ dir))

  created : Pops true x xs m → Vm
  created p = with_word (dir_slot dir va) (frame x * page_size + pte_pwu) (counted x p.out)

  pgdir_walk-created :
      (p : Pops true x xs m)
      → IsPage x
      → dir < npages
      → is_present (m.words (dir_slot dir va)) ≡ false
      → pgdir_walk dir va true m ≡ ok (some (slot (frame x) (ptx va))) (created p)
  unfolding pgdir_walk created
  pgdir_walk-created p v d absent =
      rw
        (
          load-ok (dir_slot dir va) m (slot-bound dir va d).0,
          absent,
          p.ends,
          ne→==_false x null (omega (arith, v)),
          page_incref-counted x p.out v,
          store-ok (dir_slot dir va) (frame x * page_size + pte_pwu) (counted x p.out)
              (slot-bound dir va d).0,
        )
        refl

  created-dir_slot :
      (p : Pops true x xs m) → (created p).words (dir_slot dir va) ≡ frame x * page_size + pte_pwu
  unfolding created
  created-dir_slot p = rw (eq→== (dir_slot dir va) (dir_slot dir va) refl) refl

  created-frame_of :
      (p : Pops true x xs m) → frame_of ((created p).words (dir_slot dir va)) ≡ frame x
  created-frame_of p = rw (created-dir_slot p) (omega arith)

  created-is_present :
      (p : Pops true x xs m) → is_present ((created p).words (dir_slot dir va)) ≡ true
  created-is_present p =
      rw (created-dir_slot p) (eq→== ((frame x * page_size + pte_pwu) % 2) 1 (omega arith))

  created-empty :
      (p : Pops true x xs m) (i : ℕ) → Clear → i < nr_pte → (created p).words (slot (frame x) i) ≡ 0
  unfolding created
  created-empty p i c b =
      rw (ne→==_false (slot (frame x) i) (dir_slot dir va) (omega (arith, c, b)))
        (ap (λ w. w (slot (frame x) i)) p.memory ∙ ground (arith, b))

  HasTable-created :
      (p : Pops true x xs m) → Clear → dir < npages → HasTable (created p).words dir va
  HasTable-created p c d =
      let f = created-frame_of p in
      (d, created-is_present p, omega (arith, f, c), omega (arith, f, c))

  pgdir_walk-same :
      (p : Pops true x xs m)
      → IsPage x
      → dir < npages
      → is_present (m.words (dir_slot dir va)) ≡ false
      → pgdir_walk dir va true m ≡ ok (some (pte_of (created p).words dir va)) (created p)
  pgdir_walk-same p v d absent =
      pgdir_walk-created p v d absent
      ∙ ap (λ f. ok (some (slot f (ptx va))) (created p)) (sym (created-frame_of p))

  page_insert-created :
      (p : Pops true x xs m) (q : Page) (perm : ℕ)
      → IsPage x
      → Clear
      → dir < npages
      → is_present (m.words (dir_slot dir va)) ≡ false
      → page_insert dir q va perm m ≡ page_insert dir q va perm (created p)
  unfolding page_insert
  page_insert-created p q perm v c d absent =
      rw
        (
          pgdir_walk-same p v d absent,
          pgdir_walk-some dir va true (created p) (HasTable-created p c d),
        )
        refl

  -- Where the directory has no table for va, the free list is x and then xs, and the four pages
  -- that are cleared are in the memory and do not hold the directory, pgdir_walk with create
  -- makes page x an empty table for va with one reference more, leaves xs on the free list, and
  -- gives the address of the entry in it; page_insert goes on as if the table had been there.
  pub pgdir_walk-Creates :
      FreeList m (x ∷ xs)
      → Clear
      → dir < npages
      → is_present (m.words (dir_slot dir va)) ≡ false
      → Creates dir va x xs m
  unfolding created
  pgdir_walk-Creates h c d absent =
      let p = page_alloc-Pops true x xs m h (omega (arith, c)) in
      let v = h.1 in
      record {
        out = created p;
        ends = pgdir_walk-same p v d absent;
        has_table = HasTable-created p c d;
        leads = created-frame_of p;
        empty = λ i b. created-empty p i c b;
        free = p.popped.rest_free;
        refs = ap (λ r. update r x (inc16 (r x))) p.popped.same_refs;
        continues = λ q perm. page_insert-created p q perm v c d absent;
      }

-- Without a free page, nothing happens.
pub page_insert-no_memory :
    (dir va : ℕ) (p : Page) (perm : ℕ) (m : Vm)
    → FreeList m []
    → dir < npages
    → is_present (m.words (dir_slot dir va)) ≡ false
    → page_insert dir p va perm m ≡ ok minus_one m
unfolding page_insert pgdir_walk
page_insert-no_memory dir va p perm m h d absent =
    rw (load-ok (dir_slot dir va) m (slot-bound dir va d).0, absent, page_alloc-nil true m h) refl

-- ===== src/Paging/Boot/FirstFree.antt =====
-- The free list that page_init builds: the pages from number 0x400 on, in ascending order.
use mathlib.Core.Path.{subst}
use sebopesyslab.Base.{
  ℕ, zero, suc, ◌+◌, ◌-◌, ◌*◌, ◌≤◌, ◌<◌, ◌≡◌, refl, ap, ◌∙◌, false, arith, ◌||◌, if◌then◌else◌, ltb,
  has, ne→==_false, some, List, [], ◌∷◌, eq→==, lt→ltb, le→ltb_false,
}
use sebopesyslab.Kernel.{update}
use sebopesyslab.Scheduler.{kernbase}
use sebopesyslab.Paging.{Vm, Page, npages, page_at, page_size, translate}
use sebopesyslab.Paging.Pool.FreeList.{FreeList, Links-frame}
use sebopesyslab.Paging.Boot.KernelMap.{Placed, init_kern_pgdir-KernelMap}
use sebopesyslab.Paging.Boot.{
  page_init, boot_map_region, vmem_addr, vmem_size, pte_pw, first_free_page, keep_loop, free_loop,
}

-- The `n` pages from number `base` on.
unfoldable pub interval : (base n : ℕ) → List Page
interval base zero = []
interval base (suc n) = page_at base ∷ interval (base + 1) n

has-interval : (n a base : ℕ) → a < base → has (page_at a) (interval base n) ≡ false
unfolding interval
has-interval zero a base h = refl
has-interval (suc n) a base h =
    rw (ne→==_false (page_at a) (page_at base) (omega (arith, h)))
      (has-interval n a (base + 1) (omega (arith, h)))

-- With the pages from base + n on free, in order, the loop adds those from base on.
free_loop-FreeList :
    (n k base : ℕ) (m : Vm)
    → base + n + k ≤ npages
    → FreeList m (interval (base + n) k)
    → FreeList (free_loop n base m) (interval base (n + k))
unfolding free_loop interval
free_loop-FreeList zero k base m b h =
    let here : base + 0 ≡ base = omega arith in
    let all : k ≡ 0 + k = omega arith in
    subst (λ l. FreeList m (interval base l)) all (subst (λ a. FreeList m (interval a k)) here h)
free_loop-FreeList (suc n) k base m b h =
    let p = page_at (base + n) in
    let rest = interval (base + n + 1) k in
    let out = record m {
      refs = update m.refs p 0;
      links = update m.links p m.free_list;
      free_list = p;
    } in
    let same : base + suc n ≡ base + n + 1 = omega arith in
    let o : has p rest ≡ false = has-interval k (base + n) (base + n + 1) (omega arith) in
    let hr : FreeList m rest = subst (λ a. FreeList m (interval a k)) same h in
    let pushed : FreeList out (p ∷ rest) = (
      refl,
      (omega arith, omega (arith, b)),
      o,
      rw (eq→== p p refl) (Links-frame m.links p m.free_list m.free_list rest o hr),
    ) in
    subst (λ l. FreeList (free_loop n base out) (interval base l)) (omega arith)
      (free_loop-FreeList n (suc k) base out (omega (arith, b)) pushed)

-- The reference counts: 1 below base, 0 from there on.
free_loop-refs :
    (n i base : ℕ) (m : Vm)
    → (free_loop n base m).refs (page_at i)
      ≡ (if ltb i base || ltb (base + n) (i + 1) then m.refs (page_at i) else 0)
unfolding free_loop
free_loop-refs zero i base m = ground arith
free_loop-refs (suc n) i base m =
    let p = page_at (base + n) in
    let out = record m {
      refs = update m.refs p 0;
      links = update m.links p m.free_list;
      free_list = p;
    } in
    free_loop-refs n i base out ∙ ground arith

keep_loop-refs :
    (n i : ℕ) (m : Vm)
    → (keep_loop n m).refs (page_at i) ≡ (if ltb i n then 1 else m.refs (page_at i))
unfolding keep_loop
keep_loop-refs zero i m = ground arith
keep_loop-refs (suc n) i m = ground (arith, keep_loop-refs n i m)

keep_loop-FreeList : (n : ℕ) (xs : List Page) (m : Vm) → FreeList m xs → FreeList (keep_loop n m) xs
unfolding keep_loop
keep_loop-FreeList zero xs m h = h
keep_loop-FreeList (suc n) xs m h = keep_loop-FreeList n xs m h

free_loop-words : (n base : ℕ) (m : Vm) → (free_loop n base m).words ≡ m.words
unfolding free_loop
free_loop-words zero base m = refl
free_loop-words (suc n) base m = free_loop-words n base (record m {
  refs = update m.refs (page_at (base + n)) 0;
  links = update m.links (page_at (base + n)) m.free_list;
  free_list = page_at (base + n);
})

keep_loop-words : (n : ℕ) (m : Vm) → (keep_loop n m).words ≡ m.words
unfolding keep_loop
keep_loop-words zero m = refl
keep_loop-words (suc n) m = keep_loop-words n m

-- The state in which page_init calls boot_map_region.
pub record FirstPages (dir table : ℕ) (m : Vm) : Type 0 where
  pub out : Vm
  pub ends : page_init dir table m ≡ boot_map_region dir vmem_addr vmem_size vmem_addr pte_pw out
  pub maps : (x : ℕ) → x < npages * page_size → translate out.words dir (kernbase + x) ≡ some x
  pub free : FreeList out (interval first_free_page (npages - first_free_page))
  pub kept : (i : ℕ) → i < first_free_page → out.refs (page_at i) ≡ 1
  pub unused : (i : ℕ) → first_free_page ≤ i → i < npages → out.refs (page_at i) ≡ 0

abbrev page_lists : Vm → Vm
page_lists m = free_loop (npages - first_free_page) first_free_page (keep_loop first_free_page m)

-- With kpgdir and kpgtable in the memory and apart, and no page on the free list, page_init
-- gets to its call of boot_map_region in a state in which the directory maps KERNBASE + x to x
-- for each of the 128 MB of physical addresses x, the free list is the pages from number 0x400
-- on, in ascending order, each of them has the count 0, and each page below has the count 1.
pub page_init-FirstPages :
    (dir table : ℕ) (m : Vm) → Placed dir table → FreeList m [] → FirstPages dir table m
unfolding page_init
page_init-FirstPages dir table m h e =
    let k = init_kern_pgdir-KernelMap dir table m h in
    record {
      out = page_lists k.out;
      ends = rw k.ends refl;
      maps = λ x b.
          ap (λ w. translate w dir (kernbase + x))
            (free_loop-words (npages - first_free_page) first_free_page
                (keep_loop first_free_page k.out)
              ∙ keep_loop-words first_free_page k.out)
          ∙ k.maps x b;
      free =
          free_loop-FreeList (npages - first_free_page) 0 first_free_page
            (keep_loop first_free_page k.out) (omega arith)
            (unfold interval in keep_loop-FreeList first_free_page [] k.out (k.same_list ∙ e));
      kept = λ i b.
          free_loop-refs (npages - first_free_page) i first_free_page
            (keep_loop first_free_page k.out)
          ∙ rw (lt→ltb i first_free_page b)
              (keep_loop-refs first_free_page i k.out ∙ rw (lt→ltb i first_free_page b) refl);
      unused = λ i a b.
          free_loop-refs (npages - first_free_page) i first_free_page
            (keep_loop first_free_page k.out)
          ∙ rw
              (
                le→ltb_false i first_free_page a,
                le→ltb_false (first_free_page + (npages - first_free_page)) (i + 1)
                    (omega (arith, b)),
              )
              refl;
    }

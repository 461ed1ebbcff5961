-- ===== src/Paging/Boot/KernelMap.antt =====
-- The kernel's page directory maps the physical memory, all of it, at KERNBASE.
use sebopesyslab.Base.{
  ℕ, zero, suc, ◌+◌, ◌*◌, ◌/◌, ◌%◌, ◌^◌, ◌≤◌, ◌<◌, ◌≡◌, refl, ap, ◌∙◌, fun_ext, true, arith, some,
  ◌⊎◌, eq→==,
}
use sebopesyslab.Base.Action.{ok}
use sebopesyslab.Kernel.{update}
use sebopesyslab.Scheduler.{kernbase}
use sebopesyslab.Paging.{
  Vm, npages, nr_pte, page_size, mem_words, slot, range, pdx, ptx, is_present, frame_of, translate,
}
use sebopesyslab.Paging.Tables.Walk.{store-ok, translate-some}
use sebopesyslab.Paging.Boot.{kern_dir_loop, kern_table_loop, init_kern_pgdir, kern_pdx, pte_pw}

-- A range that is written from its start on, or from its end.
range-first :
    (n i : ℕ) (f : ℕ → ℕ) (j : ℕ) (words : ℕ → ℕ)
    → range n (i + 1) f (j + 1) (update words i (f j)) ≡ range (suc n) i f j words
range-first n i f j words = fun_ext (λ k. ground (arith))

range-last :
    (n i : ℕ) (f : ℕ → ℕ) (words : ℕ → ℕ)
    → range n i f 0 (update words (i + n) (f n)) ≡ range (suc n) i f 0 words
range-last n i f words = fun_ext (λ k. ground (arith))

abbrev dir_entry : (table p : ℕ) → ℕ
dir_entry table p = (table + p) * page_size + pte_pw

abbrev table_entry : ℕ → ℕ
table_entry n = n * page_size + 7

kern_dir_loop-range :
    (n p dir table : ℕ) (m : Vm)
    → slot dir (p + kern_pdx) + n ≤ mem_words
    → kern_dir_loop n p dir table m
      ≡ ok tt (record m { words = range n (slot dir (p + kern_pdx)) (dir_entry table) p m.words })
unfolding kern_dir_loop
kern_dir_loop-range zero p dir table m h =
    ap (λ w. ok tt (record m { words = w })) (fun_ext (λ k. ground (arith)))
kern_dir_loop-range (suc n) p dir table m h =
    let i = slot dir (p + kern_pdx) in
    let e = dir_entry table in
    let out = record m { words = update m.words i (e p) } in
    let next : slot dir (p + 1 + kern_pdx) ≡ i + 1 = omega arith in
    rw (store-ok i (e p) m (omega (arith, h))) (
      kern_dir_loop-range n (p + 1) dir table out (omega (arith, h))
      ∙ ap (λ w. ok tt (record m { words = w }))
          (ap (λ j. range n j e (p + 1) out.words) next ∙ range-first n i e p m.words))

kern_table_loop-range :
    (n table : ℕ) (m : Vm)
    → slot table 0 + n ≤ mem_words
    → kern_table_loop n table m
      ≡ ok tt (record m { words = range n (slot table 0) table_entry 0 m.words })
unfolding kern_table_loop
kern_table_loop-range zero table m h =
    ap (λ w. ok tt (record m { words = w })) (fun_ext (λ k. ground (arith)))
kern_table_loop-range (suc n) table m h =
    let i = slot table 0 in
    let e = table_entry in
    let out = record m { words = update m.words (i + n) (e n) } in
    let here : slot table n ≡ i + n = omega arith in
    rw (here, store-ok (i + n) (e n) m (omega (arith, h)))
      (kern_table_loop-range n table out (omega (arith, h))
        ∙ ap (λ w. ok tt (record m { words = w })) (range-last n i e m.words))

-- The words after init_kern_pgdir.
abbrev kern_words : (dir table : ℕ) → (ℕ → ℕ) → (ℕ → ℕ)
kern_words dir table words =
    range npages (slot table 0) table_entry 0
      (range (npages / nr_pte) (slot dir kern_pdx) (dir_entry table) 0 words)

-- The arrays lie in the memory, and apart.
abbrev pub Placed : (dir table : ℕ) → Type 0
Placed dir table =
    (dir < npages)
    × (table + npages / nr_pte ≤ npages)
    × (dir < table ⊎ table + npages / nr_pte ≤ dir)

init_kern_pgdir-kern_words :
    (dir table : ℕ) (m : Vm)
    → Placed dir table
    → init_kern_pgdir dir table m ≡ ok dir (record m { words = kern_words dir table m.words })
unfolding init_kern_pgdir
init_kern_pgdir-kern_words dir table m h =
    rw
      (
        kern_dir_loop-range (npages / nr_pte) 0 dir table m (omega (arith, h)),
        kern_table_loop-range npages table
            (record m {
              words = range (npages / nr_pte) (slot dir kern_pdx) (dir_entry table) 0 m.words;
            })
            (omega (arith, h)),
      )
      refl

pdx_kern : (x : ℕ) → x < npages * page_size → pdx (kernbase + x) ≡ kern_pdx + x / 2 ^ 22
pdx_kern x b = omega (arith, b)

ptx_kern : (x : ℕ) → ptx (kernbase + x) ≡ x / page_size % nr_pte
ptx_kern x = omega arith

kern_words-dir :
    (dir table p : ℕ) (words : ℕ → ℕ)
    → Placed dir table
    → p < npages / nr_pte
    → kern_words dir table words (slot dir (kern_pdx + p)) ≡ dir_entry table p
kern_words-dir dir table p words h b = ground (arith, h, b)

kern_words-table :
    (dir table n : ℕ) (words : ℕ → ℕ)
    → n < npages
    → kern_words dir table words (slot table n) ≡ table_entry n
kern_words-table dir table n words b = ground (arith, b)

dir_entry-facts :
    (table p : ℕ)
    → (is_present (dir_entry table p) ≡ true) × (frame_of (dir_entry table p) ≡ table + p)
dir_entry-facts table p = (eq→== (dir_entry table p % 2) 1 (omega arith), omega arith)

table_entry-facts : (n : ℕ) → (is_present (table_entry n) ≡ true) × (frame_of (table_entry n) ≡ n)
table_entry-facts n = (eq→== (table_entry n % 2) 1 (omega arith), omega arith)

kern_words-translate :
    (dir table x : ℕ) (words : ℕ → ℕ)
    → Placed dir table
    → x < npages * page_size
    → translate (kern_words dir table words) dir (kernbase + x) ≡ some x
kern_words-translate dir table x words h b =
    let filled = kern_words dir table words in
    let p = x / 2 ^ 22 in
    let n = x / page_size in
    let d = dir_entry table p in
    let in_table : slot (frame_of d) (ptx (kernbase + x)) ≡ slot table n =
      rw ((dir_entry-facts table p).1, ptx_kern x) (omega arith) in
    translate-some filled dir (kernbase + x) d (table_entry n)
      (ap (λ i. filled (slot dir i)) (pdx_kern x b)
        ∙ kern_words-dir dir table p words h (omega (arith, b)))
      (ap filled in_table ∙ kern_words-table dir table n words (omega (arith, b)))
      (dir_entry-facts table p).0 (table_entry-facts n).0
    ∙ ap (λ y. some y) (rw (table_entry-facts n).1 (omega arith))

-- What init_kern_pgdir gives.
pub record KernelMap (dir table : ℕ) (m : Vm) : Type 0 where
  pub out : Vm
  pub ends : init_kern_pgdir dir table m ≡ ok dir out
  pub maps : (x : ℕ) → x < npages * page_size → translate out.words dir (kernbase + x) ≡ some x
  pub same_refs : out.refs ≡ m.refs
  pub same_links : out.links ≡ m.links
  pub same_list : out.free_list ≡ m.free_list

-- init_kern_pgdir, with the two static arrays in the memory and apart, ends with the directory;
-- this one maps KERNBASE + x to x for every physical address x, and the records of the pages
-- are as before.
pub init_kern_pgdir-KernelMap : (dir table : ℕ) (m : Vm) → Placed dir table → KernelMap dir table m
init_kern_pgdir-KernelMap dir table m h = record {
  out = record m { words = kern_words dir table m.words };
  ends = init_kern_pgdir-kern_words dir table m h;
  maps = λ x b. kern_words-translate dir table x m.words h b;
  same_refs = refl;
  same_links = refl;
  same_list = refl;
}

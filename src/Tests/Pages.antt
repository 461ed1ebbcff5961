-- ===== src/Tests/Pages.antt =====
-- The theorems on pages and page tables at a memory with one page directory.
use sebopesyslab.Base.{
  ◌+◌, ◌*◌, ◌<◌, ◌≤◌, ◌≡◌, refl, true, arith, ◌==◌, if◌then◌else◌, [], ◌∷◌, inl,
}
use sebopesyslab.Base.Action.{ok, fault}
use sebopesyslab.Scheduler.{kernbase}
use sebopesyslab.Paging.{Vm, npages, frame, translate}
use sebopesyslab.Paging.Pool.{page_alloc, page_decref}
use sebopesyslab.Paging.Pool.FreeList.{
  Pops, page_alloc-Pops, page_decref-lists, after_drop, FreeList,
}
use sebopesyslab.Paging.Pool.Clearing.{Clears, page_alloc-clearing}
use sebopesyslab.Paging.Tables.Mapping.{
  Inserts, page_insert-Inserts, Removes, page_remove-Removes, Freed, page_remove-unmapped,
}
use sebopesyslab.Paging.Tables.Create.{Creates, pgdir_walk-Creates}
use sebopesyslab.Paging.Boot.KernelMap.{init_kern_pgdir-KernelMap}
use sebopesyslab.Paging.Boot.FirstFree.{FirstPages, page_init-FirstPages}
use sebopesyslab.Paging.EntryMap.{entry_words, entry_map-kernel_map}

-- A directory in frame 1 with a table in frame 2, which has page 9 at 0x3000; pages 5 and 7 are free.
abbrev pool : Vm
pool = record {
  words = λ i. if i == 1024 then 2 * 4096 + 7 else if i == 2 * 1024 + 3 then 8 * 4096 + 7 else 0;
  refs = λ p. if p == 9 then 1 else if p == 1 then 1 else 0;
  links = λ p. if p == 5 then 7 else 0;
  free_list = 5;
}

abbrev fresh : Vm
fresh = record { words = λ i. 0; refs = λ p. 0; links = λ p. 0; free_list = 0 }

pool-FreeList : FreeList pool (5 ∷ 7 ∷ [])
pool-FreeList =
    (refl, (omega arith, omega arith), refl, (refl, (omega arith, omega arith), refl, refl))

page_alloc-Pops_example : Pops true 5 (7 ∷ []) pool
page_alloc-Pops_example = page_alloc-Pops true 5 (7 ∷ []) pool pool-FreeList (omega arith)

page_decref-lists_example :
    (page_decref 9 pool ≡ ok tt (after_drop true 9 pool))
    × FreeList (after_drop true 9 pool) (9 ∷ 5 ∷ 7 ∷ [])
page_decref-lists_example =
    page_decref-lists 9 (5 ∷ 7 ∷ []) pool (omega arith, omega arith) refl pool-FreeList

page_alloc-clearing_example :
    (frame 5 + 4 ≤ npages → Clears 5 pool) × (npages < frame 5 + 4 → page_alloc true pool ≡ fault)
page_alloc-clearing_example = page_alloc-clearing 5 (7 ∷ []) pool pool-FreeList

page_insert-Inserts_example : Inserts 1 11 0x3000 7 (5 ∷ 7 ∷ []) pool
page_insert-Inserts_example =
    page_insert-Inserts 1 11 0x3000 7 (5 ∷ 7 ∷ []) pool
      (omega arith, refl, omega arith, omega arith) (omega arith, omega arith) (omega arith)
      (omega arith, omega arith) refl pool-FreeList

page_remove-Removes_example : Removes 1 0x3000 (5 ∷ 7 ∷ []) pool
page_remove-Removes_example =
    page_remove-Removes 1 0x3000 (5 ∷ 7 ∷ []) pool (omega arith, refl, omega arith, omega arith)
      (omega arith, omega arith) refl pool-FreeList

page_remove-unmapped_example : Freed 1 0x4000 pool
page_remove-unmapped_example =
    page_remove-unmapped 1 0x4000 pool (omega arith, refl, omega arith, omega arith) refl refl

page_init-FirstPages_example : FirstPages 0x200 0x201 fresh
page_init-FirstPages_example =
    page_init-FirstPages 0x200 0x201 fresh (omega arith, omega arith, inl (omega arith)) refl

abbrev started : Vm
started =
    (init_kern_pgdir-KernelMap 0x200 0x201 fresh (omega arith, omega arith, inl (omega arith))).out

entry_map-kernel_map_example :
    translate (entry_words 0x100 0x101 (λ i. 0)) 0x100 (kernbase + 0x1234)
    ≡ translate started.words 0x200 (kernbase + 0x1234)
entry_map-kernel_map_example =
    entry_map-kernel_map 0x100 0x101 0x200 0x201 0x1234 (λ i. 0) fresh started (omega arith)
      (omega arith, omega arith, inl (omega arith))
      (init_kern_pgdir-KernelMap 0x200 0x201 fresh
        (omega arith, omega arith, inl (omega arith))).ends
      (omega arith)

pgdir_walk-Creates_example : Creates 1 0x40_0000 5 (7 ∷ []) pool
pgdir_walk-Creates_example =
    pgdir_walk-Creates 1 0x40_0000 5 (7 ∷ []) pool pool-FreeList (omega arith, inl (omega arith))
      (omega arith) refl

-- ===== src/Paging/Boot.antt =====
-- init_kern_pgdir, page_init and boot_map_region of kernel/src/paging/pmap.c. The linker places the
-- static arrays kpgdir, in the frame `dir`, and kpgtable, in the frames from `table` on.
pub mod KernelMap
pub mod FirstFree
use sebopesyslab.Base.{
  ℕ, zero, suc, ◌+◌, ◌-◌, ◌*◌, ◌/◌, ◌%◌, ◌^◌, true, Option, none, some, ◌>>>◌, add32,
}
use sebopesyslab.Base.Action.{Action, pure, get, modify, ◌>>=◌, ◌>>◌}
use sebopesyslab.Kernel.{update}
use sebopesyslab.Scheduler.{kernbase}
use sebopesyslab.Paging.{Vm, npages, nr_pte, page_size, page_at, slot, frame_of, store}
use sebopesyslab.Paging.Tables.{entry, pgdir_walk}
use sebopesyslab.Paging.Spaces.{round_up}

-- `KERNBASE >> PDXSHIFT`
abbrev pub kern_pdx : ℕ
kern_pdx = kernbase >>> 22

-- `PTE_P | PTE_W`
abbrev pub pte_pw : ℕ
pte_pw = 3

-- `n` more entries of the directory, from number `pdx` on
pub kern_dir_loop : (n pdx dir table : ℕ) → Action Vm (Unit {0})
kern_dir_loop zero pdx dir table = pure tt
kern_dir_loop (suc n) pdx dir table = do
  store (slot dir (pdx + kern_pdx)) ((table + pdx) * page_size + pte_pw)
  kern_dir_loop n (pdx + 1) dir table

-- The entries below `n`, downwards
pub kern_table_loop : (n table : ℕ) → Action Vm (Unit {0})
kern_table_loop zero table = pure tt
kern_table_loop (suc n) table = do store (slot table n) (n * page_size + 7); kern_table_loop n table

-- The result is kern_pgdir, which is loaded into cr3.
pub init_kern_pgdir : (dir table : ℕ) → Action Vm ℕ
init_kern_pgdir dir table = do
  kern_dir_loop (npages / nr_pte) 0 dir table
  kern_table_loop npages table
  pure dir

-- `n` more pages
pub boot_map_loop : (n pgdir va f perm : ℕ) → Action Vm (Unit {0})
boot_map_loop zero pgdir va f perm = pure tt
boot_map_loop (suc n) pgdir va f perm = do
  r ← pgdir_walk pgdir va true
  elim r [
    | none ↦ pure tt
    | some pte ↦ (do
      store pte (entry f perm)
      boot_map_loop n pgdir (add32 va page_size) (f + 1) perm)
  ]

-- `pa` is a multiple of the page size.
pub boot_map_region : (pgdir va size pa perm : ℕ) → Action Vm (Unit {0})
boot_map_region pgdir va size pa perm = boot_map_loop (size / page_size) pgdir va (frame_of pa) perm

-- The number of the first page that is free at the start, `base`
abbrev pub first_free_page : ℕ
first_free_page = 0x400

-- `pages[i].pp_ref = 1` for the `n` first pages
pub keep_loop : ℕ → Vm → Vm
keep_loop zero m = m
keep_loop (suc n) m = let r = keep_loop n m in record r { refs = update r.refs (page_at n) 1 }

-- `n` more pages are put on the free list, downwards, the last one being page `base`.
pub free_loop : (n base : ℕ) → Vm → Vm
free_loop zero base m = m
free_loop (suc n) base m = free_loop n base (record m {
  refs = update m.refs (page_at (base + n)) 0;
  links = update m.links (page_at (base + n)) m.free_list;
  free_list = page_at (base + n);
})

-- VMEM_ADDR and ROUNDUP(SCR_SIZE, PGSIZE)
abbrev pub vmem_addr : ℕ
vmem_addr = 0xa0000

abbrev pub vmem_size : ℕ
vmem_size = round_up (320 * 200)

pub page_init : (dir table : ℕ) → Action Vm (Unit {0})
page_init dir table = do
  kern_pgdir ← init_kern_pgdir dir table
  modify (keep_loop first_free_page)
  modify (free_loop (npages - first_free_page) first_free_page)
  boot_map_region kern_pgdir vmem_addr vmem_size vmem_addr pte_pw

-- ===== src/Paging/Spaces.antt =====
-- mm_alloc, copy_pgdir and free_pgdir of kernel/src/paging/pmap.c.
use sebopesyslab.Base.{ℕ, zero, suc, ◌+◌, ◌-◌, ◌*◌, ◌/◌, ◌%◌, true, false, if◌then◌else◌, add32}
use sebopesyslab.Base.Action.{Action, pure, ◌>>=◌, ◌>>◌}
use sebopesyslab.Paging.{
  Vm, frame, frame_of, attr_of, page_at, is_present, slot, page_size, nr_pte, load, store, memcpy,
}
use sebopesyslab.Paging.Pool.{page_alloc, page_decref, page_incref}
use sebopesyslab.Paging.Tables.{page_insert, pte_pwu}

-- ROUNDDOWN and ROUNDUP to pages
abbrev pub round_down : ℕ → ℕ
round_down a = a - a % page_size

abbrev pub round_up : ℕ → ℕ
round_up a = round_down (add32 a (page_size - 1))

pub mm_alloc_loop : (n pgdir va : ℕ) → Action Vm (Unit {0})
mm_alloc_loop zero pgdir va = pure tt
mm_alloc_loop (suc n) pgdir va = do
  p ← page_alloc false
  r ← page_insert pgdir p va pte_pwu
  mm_alloc_loop n pgdir (va + page_size)

pub mm_alloc : (pgdir va len : ℕ) → Action Vm (Unit {0})
mm_alloc pgdir va len =
    mm_alloc_loop ((round_up (add32 va len) - round_down va) / page_size) pgdir (round_down va)

-- One entry of a page table: a new page with the contents of the old one.
pub copy_pte : (dst_table src_table i : ℕ) → Action Vm (Unit {0})
copy_pte dst_table src_table i = do
  e ← load (slot src_table i)
  if is_present e
      then (do
        pp ← page_alloc false
        page_incref pp
        store (slot dst_table i) (frame pp * page_size + attr_of e)
        memcpy (slot (frame pp) 0) (slot (frame_of e) 0) page_size)
      else pure tt

pub copy_table : (n i dst_table src_table : ℕ) → Action Vm (Unit {0})
copy_table zero i dst_table src_table = pure tt
copy_table (suc n) i dst_table src_table = do
  copy_pte dst_table src_table i
  copy_table n (i + 1) dst_table src_table

pub copy_pde : (dst_dir src_dir i : ℕ) → Action Vm (Unit {0})
copy_pde dst_dir src_dir i = do
  e ← load (slot src_dir i)
  if is_present e
      then (do
        d ← load (slot dst_dir i)
        if is_present d then pure tt else do
          pp ← page_alloc true
          page_incref pp
          store (slot dst_dir i) (frame pp * page_size + attr_of e)
          copy_table nr_pte 0 (frame pp) (frame_of e))
      else pure tt

pub copy_pgdir_loop : (n i dst_dir src_dir : ℕ) → Action Vm (Unit {0})
copy_pgdir_loop zero i dst_dir src_dir = pure tt
copy_pgdir_loop (suc n) i dst_dir src_dir = do
  copy_pde dst_dir src_dir i
  copy_pgdir_loop n (i + 1) dst_dir src_dir

pub copy_pgdir : (dst_dir src_dir : ℕ) → Action Vm (Unit {0})
copy_pgdir dst_dir src_dir = copy_pgdir_loop nr_pte 0 dst_dir src_dir

pub free_table : (n i pgtable : ℕ) → Action Vm (Unit {0})
free_table zero i pgtable = pure tt
free_table (suc n) i pgtable = do
  e ← load (slot pgtable i)
  if is_present e then page_decref (page_at (frame_of e)) else pure tt
  free_table n (i + 1) pgtable

pub free_pde : (kern_pgdir pgdir i : ℕ) → Action Vm (Unit {0})
free_pde kern_pgdir pgdir i = do
  e ← load (slot pgdir i)
  if is_present e
      then (do
        k ← load (slot kern_pgdir i)
        if is_present k then pure tt else do
          free_table nr_pte 0 (frame_of e)
          page_decref (page_at (frame_of e))
          store (slot pgdir i) 0)
      else pure tt

pub free_pgdir_loop : (n i kern_pgdir pgdir : ℕ) → Action Vm (Unit {0})
free_pgdir_loop zero i kern_pgdir pgdir = pure tt
free_pgdir_loop (suc n) i kern_pgdir pgdir = do
  free_pde kern_pgdir pgdir i
  free_pgdir_loop n (i + 1) kern_pgdir pgdir

pub free_pgdir : (kern_pgdir pgdir : ℕ) → Action Vm (Unit {0})
free_pgdir kern_pgdir pgdir = free_pgdir_loop nr_pte 0 kern_pgdir pgdir

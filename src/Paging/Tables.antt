-- ===== src/Paging/Tables.antt =====
-- pgdir_walk, page_insert, page_lookup and page_remove of kernel/src/paging/pmap.c. Entries are
-- made by `pa | perm`, where `pa` is a multiple of the page size and `perm` is less: a sum.
pub mod Walk
pub mod Insert
pub mod Mapping
pub mod Create
use sebopesyslab.Base.{
  ℕ, ◌+◌, ◌-◌, ◌*◌, ◌/◌, ◌%◌, ◌^◌, Bool, true, false, ◌==◌, if◌then◌else◌, Option, none, some,
  bit_or, minus_one,
}
use sebopesyslab.Base.Action.{Action, pure, get, modify, refuse, ◌>>=◌, ◌>>◌}
use sebopesyslab.Paging.{
  Vm, Page, null, frame, frame_of, page_at, is_present, slot, page_size, pdx, ptx, load, store,
}
use sebopesyslab.Paging.Pool.{page_alloc, page_decref, page_incref}

-- `PTE_P | PTE_W | PTE_U`
abbrev pub pte_pwu : ℕ
pte_pwu = 7

-- `pa | perm | PTE_P`
abbrev pub entry : (f perm : ℕ) → ℕ
entry f perm = f * page_size + bit_or perm 1

-- The address of the entry for `va`, unless there is none.
pub pgdir_walk : (pgdir va : ℕ) (create : Bool) → Action Vm (Option ℕ)
pgdir_walk pgdir va create = do
  e ← load (slot pgdir (pdx va))
  if is_present e
      then pure (some (slot (frame_of e) (ptx va)))
      else if create
      then (do
        p ← page_alloc true
        if p == null then pure none else do
          page_incref p
          store (slot pgdir (pdx va)) (frame p * page_size + pte_pwu)
          pure (some (slot (frame p) (ptx va))))
      else pure none

-- The page at `va` and the address of its entry, unless there is no page table.
pub page_lookup : (pgdir va : ℕ) → Action Vm (Option (Page × ℕ))
page_lookup pgdir va = do
  r ← pgdir_walk pgdir va false
  elim r [
    | none ↦ pure none
    | some pte ↦ (do e ← load pte; pure (some (page_at (frame_of e), pte)))
  ]

pub page_remove : (pgdir va : ℕ) → Action Vm (Unit {0})
page_remove pgdir va = do
  r ← page_lookup pgdir va
  elim r [ none ↦ pure tt | some found ↦ (do store found.1 0; page_decref found.0) ]

-- 0, or -1 when there is no page for a page table.
pub page_insert : (pgdir : ℕ) (pp : Page) (va perm : ℕ) → Action Vm ℕ
page_insert pgdir pp va perm = do
  r ← pgdir_walk pgdir va true
  elim r [
    | none ↦ pure minus_one
    | some pte ↦ (do
      old ← load pte
      if is_present old
          then (if frame_of old == frame pp
              then store pte (entry (frame pp) perm)
              else page_remove pgdir va)
          else pure tt
      store pte (entry (frame pp) perm)
      page_incref pp
      pure 0)
  ]

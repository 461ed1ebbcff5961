-- ===== src/Queue.antt =====
-- The list functions of kernel/src/process.c. `PCB** head` is a `Place`. A loop has fuel for one
-- round more than there are PCBs.
pub mod Chain
pub mod Relinks
pub mod Entail
pub mod Unlink
pub mod Delete
pub mod Rep
pub mod Amend
use sebopesyslab.Base.{ℕ, zero, suc, ◌+◌, ◌==◌, if◌then◌else◌}
use sebopesyslab.Kernel.{Ptr, null, pcb_pool_max, Pcb, Kernel, Place}
use sebopesyslab.Kernel.Run.{
  Run, out_of_fuel, Cmd, pure, ◌>>=◌, ◌>>◌, load, store, load_head, store_head,
}

abbrev pub walk_bound : ℕ
walk_bound = pcb_pool_max + 2

abbrev pub set_next : Ptr → Ptr → Cmd (Unit {0})
set_next p q = store p (λ c. record c { next = q })

len_loop : ℕ → Ptr → ℕ → Cmd ℕ
len_loop zero p i = λ _. out_of_fuel
len_loop (suc n) p i = if p == null then pure i else do c ← load p; len_loop n c.next (i + 1)

pub ll_len : Place → Cmd ℕ
ll_len l = do p ← load_head l; len_loop walk_bound p 0

pub delete_loop : ℕ → Place → Ptr → (sleep pre : Ptr) → Cmd ℕ
delete_loop zero l p sleep pre = λ _. out_of_fuel
delete_loop (suc n) l p sleep pre = if sleep == null then pure 0 else do
  c ← load sleep
  if sleep == p
      then (do
        (if pre == null then store_head l c.next else set_next pre c.next)
        set_next sleep null
        pure 1)
      else delete_loop n l p c.next sleep

pub ll_delete : Place → Ptr → Cmd ℕ
ll_delete l p = do h ← load_head l; delete_loop walk_bound l p h null

pub ll_pop : Place → Cmd Ptr
ll_pop l = do p ← load_head l; r ← ll_delete l p; pure p

pub ll_push : Place → Ptr → Cmd ℕ
ll_push l p = do
  h ← load_head l
  store_head l p
  if h == null then pure 0 else do set_next p h; pure 1

entail_loop : ℕ → (h p : Ptr) → Cmd ℕ
entail_loop zero h p = λ _. out_of_fuel
entail_loop (suc n) h p = do
  c ← load h
  if c.next == null then (do set_next h p; pure 1) else entail_loop n c.next p

pub ll_entail : Place → Ptr → Cmd ℕ
ll_entail l p = do
  h ← load_head l
  set_next p null
  if h == null then (do store_head l p; pure 0) else entail_loop walk_bound h p

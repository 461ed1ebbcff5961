-- ===== src/Scheduler.antt =====
-- kernel/src/scheduler.c, and `scheduler_switch` of kernel/src/memory/kvm.c.
pub mod Switch
pub mod Laws
use sebopesyslab.Base.{
  ℕ, zero, suc, ◌+◌, ◌-◌, ◌%◌, ◌^◌, Bool, true, false, ◌||◌, ◌==◌, ltb, if◌then◌else◌, u32, sub32,
}
use sebopesyslab.Kernel.{
  Ptr, null, TaskState, ready, running, stop, sleeping, Pcb, Kernel, ready_place, sleep_place,
}
use sebopesyslab.Kernel.Run.{
  switched, out_of_fuel, Cmd, pure, get, modify, ◌>>=◌, ◌>>◌, load, store,
}
use sebopesyslab.Queue.{ll_pop, ll_entail}

abbrev pub kernbase : ℕ
kernbase = 0xc000_0000

-- `_paddr` without its diagnostic print.
abbrev pub paddr : ℕ → ℕ
paddr kva = sub32 kva kernbase

abbrev pub is_sleeping : TaskState → Bool
is_sleeping sleeping = true
is_sleeping _ = false

abbrev pub is_stop : TaskState → Bool
is_stop stop = true
is_stop _ = false

-- `scheduler_switch` loads the address space and kernel stack of `p` and jumps to `switch_proc`.
pub scheduler_switch : Ptr → Cmd (Unit {0})
scheduler_switch p = do
  modify (λ k. record k { current = p })
  c ← load p
  modify (λ k. record k { cr3 = paddr c.pgdir; esp0 = p })
  switched

-- `current == NULL`: the head of the ready list runs.
pub switch_next : Cmd (Unit {0})
switch_next = do
  p ← ll_pop ready_place
  modify (λ k. record k { current = p })
  store p (λ c. record c { ts = running })
  store p (λ c. record c { timeslice = 0 })
  scheduler_switch p

-- `current = NULL`
abbrev pub drop_current : Cmd (Unit {0})
drop_current = modify (λ k. record k { current = null })

-- The call of itself comes with `current == NULL`, so two rounds are enough.
pub schedule : ℕ → Cmd (Unit {0})
schedule zero = λ _. out_of_fuel
schedule (suc n) = do
  modify (λ k. record k { count = u32 (k.count + 1) })
  k ← get
  if k.current == null then switch_next else do
    c ← load k.current
    if is_sleeping c.ts
        then (do ll_entail sleep_place k.current; drop_current; schedule n)
        else if ltb 2 c.timeslice || is_stop c.ts
        then (do
          store k.current (λ d. record d { ts = ready })
          ll_entail ready_place k.current
          drop_current
          schedule n)
        else pure tt

pub do_scheduler : Cmd (Unit {0})
do_scheduler = schedule 2

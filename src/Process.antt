-- ===== src/Process.antt =====
-- kernel/src/process.c: the pool, and how a process ends and waits for another.
pub mod Exit
pub mod Join
pub mod Create
use sebopesyslab.Base.{ℕ, zero, suc, ◌+◌, ◌-◌, ◌%◌, ◌^◌, ◌==◌, ltb, if◌then◌else◌, Bool, not}
use sebopesyslab.Base.Search.{first_from}
use sebopesyslab.Kernel.{Ptr, null, pcb_pool_max, Pcb, Kernel, Semaphore, ready_place, join, head}
use sebopesyslab.Kernel.Run.{
  ok, fault, out_of_fuel, Cmd, pure, get, modify, ◌>>=◌, ◌>>◌, load, store,
}
use sebopesyslab.Queue.{walk_bound, ll_pop, ll_entail}
use sebopesyslab.Scheduler.{drop_current, do_scheduler}

init_loop : ℕ → ℕ → Cmd (Unit {0})
init_loop zero i = pure tt
init_loop (suc n) i = do store (i + 1) (λ c. record c { used = 0 }); init_loop n (i + 1)

pub init_pcb_pool : Cmd (Unit {0})
init_pcb_pool = init_loop pcb_pool_max 0

pub enready_pcb : Ptr → Cmd (Unit {0})
enready_pcb p = do
  k ← get
  if k.ready_list == null
      then (do modify (λ k. record k { ready_list = p }); store p (λ c. record c { tail = p }))
      else (do
        modify (λ m. record m { ready_list = p })
        store p (λ c. record c { next = k.ready_list })
        old ← load k.ready_list
        store p (λ c. record c { tail = old.tail }))

pub free_pcb : Ptr → Cmd (Unit {0})
free_pcb p = store p (λ c. record c { used = 0 })

wake_joiners : ℕ → Cmd (Unit {0})
wake_joiners zero = λ _. out_of_fuel
wake_joiners (suc n) = do
  k ← get
  p ← ll_pop (join k.current)
  if p == null then pure tt else do
    c ← load p
    if c.used == 0 then wake_joiners n else do r ← ll_entail ready_place p; wake_joiners n

pub exit_current : Cmd (Unit {0})
exit_current = do wake_joiners walk_bound; k ← get; free_pcb k.current; drop_current; do_scheduler

-- `for(i=0; i<PCBPOOLMAX; i++) if(PCBPool[i].pid == pid) break;`
abbrev pub has_pid : Kernel → ℕ → ℕ → Bool
has_pid k pid i = (k.pool (i + 1)).pid == pid

abbrev pub find_pid : Kernel → ℕ → ℕ
find_pid k pid = first_from pcb_pool_max 0 (has_pid k pid)

pub join_current : ℕ → Cmd (Unit {0})
join_current pid = if pid == 0 then pure tt else do
  k ← get
  let i = find_pid k pid
  if i == pcb_pool_max
      then pure tt
      else if (k.pool (i + 1)).used == 0
      then pure tt
      else do r ← ll_entail (join (i + 1)) k.current; drop_current; do_scheduler

-- ===== src/Semaphore.antt =====
-- kernel/src/semaphore.c. A `Semaphore*` is a number: `&sems[i]` is i, and any other address is a number
-- past NR_SEMS.
pub mod Count
pub mod Laws
pub mod Close
use sebopesyslab.Base.{
  ℕ, zero, suc, ◌+◌, ◌-◌, ◌%◌, ◌^◌, Bool, ◌||◌, ◌==◌, ltb, if◌then◌else◌, add32, sub32, is_negative,
  minus_one,
}
use sebopesyslab.Kernel.{Ptr, null, Kernel, Semaphore, set_sem, ready_place, block}
use sebopesyslab.Kernel.Run.{ok, fault, out_of_fuel, Cmd, pure, get, modify, ◌>>=◌, ◌>>◌}
use sebopesyslab.Queue.{walk_bound, ll_pop, ll_entail}
use sebopesyslab.Scheduler.{drop_current, do_scheduler}

abbrev pub nr_sems : ℕ
nr_sems = 1000

-- A read of `*sem`, which ends the run where `sem` is not in `sems`. Each function reads `sem->used` first.
abbrev load_sem : Ptr → Cmd Semaphore
load_sem s k = if ltb s nr_sems then ok (k.sems s) k else fault

pub store_sem : Ptr → (Semaphore → Semaphore) → Cmd (Unit {0})
store_sem s f = modify (λ k. set_sem s (f (k.sems s)) k)

pub sem_init_kr : Ptr → ℕ → Cmd (Unit {0})
sem_init_kr s count = do
  c ← load_sem s
  if c.used == 0 then store_sem s (λ d. record d { count = count; used = 1 }) else pure tt

release_loop : ℕ → Ptr → Cmd (Unit {0})
release_loop zero s = λ _. out_of_fuel
release_loop (suc n) s = do
  p ← ll_pop (block s)
  if p == null then pure tt else do r ← ll_entail ready_place p; release_loop n s

pub sem_close_kr : Ptr → Cmd (Unit {0})
sem_close_kr s = do
  c ← load_sem s
  if c.used == 0
      then pure tt
      else do store_sem s (λ d. record d { used = 0 }); release_loop walk_bound s

pub sem_post_kr : Ptr → Cmd (Unit {0})
sem_post_kr s = do
  c ← load_sem s
  if c.used == 0 then pure tt else do
    store_sem s (λ d. record d { count = add32 d.count 1 })
    d ← load_sem s
    if d.count == 0 || is_negative d.count
        then (do p ← ll_pop (block s); r ← ll_entail ready_place p; pure tt)
        else pure tt

pub sem_wait_kr : Ptr → Cmd (Unit {0})
sem_wait_kr s = do
  c ← load_sem s
  if c.used == 0 then pure tt else do
    store_sem s (λ d. record d { count = sub32 d.count 1 })
    d ← load_sem s
    if is_negative d.count
        then (do k ← get; r ← ll_entail (block s) k.current; drop_current; do_scheduler)
        else pure tt

pub sem_trywait_kr : Ptr → Cmd ℕ
sem_trywait_kr s = do
  c ← load_sem s
  if c.used == 0
      then pure minus_one
      else if c.count == 0 || is_negative c.count
      then pure 0
      else do store_sem s (λ d. record d { count = sub32 d.count 1 }); pure 1

pub sem_get_kr : Ptr → Cmd ℕ
sem_get_kr s = do c ← load_sem s; if c.used == 0 then pure 0 else pure c.count

-- An index past NR_SEMS is outside `sems`.
pub sem_open_kr : ℕ → ℕ → Cmd Ptr
sem_open_kr index count =
    if ltb index nr_sems then (do sem_init_kr index count; pure index) else λ _. fault

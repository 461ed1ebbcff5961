-- ===== src/Timer.antt =====
-- kernel/src/timer.c: the tick, and the processes that it wakes.
pub mod Round
pub mod Walk
pub mod Wake
use sebopesyslab.Base.{
  ℕ, zero, suc, ◌+◌, ◌-◌, ◌%◌, ◌^◌, ◌==◌, ltb, if◌then◌else◌, u32, add32, sub32,
}
use sebopesyslab.Kernel.{Ptr, null, ready, Kernel, ready_place, sleep_place}
use sebopesyslab.Kernel.Run.{
  ok, out_of_fuel, Cmd, pure, get, modify, ◌>>=◌, ◌>>◌, load, store, load_head,
}
use sebopesyslab.Queue.{walk_bound, ll_delete, ll_entail}

-- `sleep` walks over the sleep list while woken PCBs are taken out of it.
pub wake_loop : ℕ → Ptr → Cmd (Unit {0})
wake_loop zero sleep = λ _. out_of_fuel
wake_loop (suc n) sleep = if sleep == null then pure tt else do
  store sleep (λ c. record c { timeslice = sub32 c.timeslice 1 })
  c ← load sleep
  if ltb 0 c.timeslice then wake_loop n c.next else do
    store sleep (λ d. record d { ts = ready })
    r ← ll_delete sleep_place sleep
    r' ← ll_entail ready_place sleep
    wake_loop n c.next

pub do_timer : Cmd (Unit {0})
do_timer = do
  modify (λ k. record k { tick = u32 (k.tick + 1) })
  k ← get
  store k.current (λ c. record c { timeslice = add32 c.timeslice 1 })
  sleep ← load_head sleep_place
  wake_loop walk_bound sleep

-- tick() of kernel/src/timer.c
pub tick_count : Cmd ℕ
tick_count k = ok k.tick k

-- ===== src/Traps/Safety.antt =====
-- Every trap ends, in a well-formed state with a running process, while another process is ready.
use sebopesyslab.Base.{ℕ, ◌<◌, ◌-◌, ◌^◌, ◌≡◌, ◌≢◌, refl, ◌⊎◌, inl, inr, List, ◌∷◌, length}
use sebopesyslab.Kernel.{Ptr, Pcb, Kernel, ready_place}
use sebopesyslab.Queue.Rep.{Queues}
use sebopesyslab.Queue.Amend.{amend, store-amend}
use sebopesyslab.Semaphore.{nr_sems}
use sebopesyslab.Semaphore.Count.{IsCounted, waiters}
use sebopesyslab.Traps.{
  Trap, timer, syscall, sys_handout, sys_exit, sys_sleep, sys_join, sys_sem_close, sys_sem_wait,
  sys_sem_post, serve, trap_body, irq_handle,
}
use sebopesyslab.Traps.States.{WellFormed, Safe, Back, Gone, and_scheduler-Safe, WellFormed-amend}
use sebopesyslab.Traps.Bodies.{
  handout-Back, sleep-Back, timer-Back, exit-Gone, join-Back, close-Back, waits_Safe, post-Back,
}

-- What a trap needs of the semaphore that it names: it is one of `sems`, and, where it is waited for or
-- posted, its count is that of free units or minus that of waiting processes, and is not the greatest
-- int when it is counted up.
abbrev pub IsFit : Kernel → Queues → Trap → Type 0
IsFit k q (syscall (sys_sem_close s)) = s < nr_sems
IsFit k q (syscall (sys_sem_wait s)) =
    (s < nr_sems) × IsCounted (k.sems s).count (length (waiters q s))
IsFit k q (syscall (sys_sem_post s)) =
    (s < nr_sems)
    × IsCounted (k.sems s).count (length (waiters q s))
    × ((k.sems s).count ≢ 2 ^ 31 - 1)
IsFit k q t = Unit {0}

IsFit-amend :
    (p : Ptr) (k : Kernel) (q : Queues) (t : Trap) (f : Pcb → Pcb)
    → IsFit k q t
    → IsFit (amend p f k) q t
unfolding amend
IsFit-amend p k q (syscall (sys_sem_wait s)) f h = h
IsFit-amend p k q (syscall (sys_sem_post s)) f h = h
IsFit-amend p k q (syscall sys_handout) f h = h
IsFit-amend p k q (syscall sys_exit) f h = h
IsFit-amend p k q (syscall (sys_sleep n)) f h = h
IsFit-amend p k q (syscall (sys_join n)) f h = h
IsFit-amend p k q (syscall (sys_sem_close s)) f h = h
IsFit-amend p k q timer f h = h

trap_body-Back :
    (k : Kernel) (q : Queues) (t : Trap) (x : Ptr) (xs : List Ptr)
    → WellFormed k q
    → q ready_place ≡ x ∷ xs
    → IsFit k q t
    → Back (trap_body t k) ⊎ Gone (trap_body t k)
unfolding trap_body serve
trap_body-Back k q timer x xs w e h = inl (timer-Back k q w x xs e)
trap_body-Back k q (syscall sys_handout) x xs w e h = inl (handout-Back k q w x xs e)
trap_body-Back k q (syscall sys_exit) x xs w e h = inr (exit-Gone k q w x xs e)
trap_body-Back k q (syscall (sys_sleep n)) x xs w e h = inl (sleep-Back k q w x xs e n)
trap_body-Back k q (syscall (sys_join n)) x xs w e h = join-Back k q w x xs e n
trap_body-Back k q (syscall (sys_sem_close s)) x xs w e h = inl (close-Back k q w x xs e s h)
trap_body-Back k q (syscall (sys_sem_wait s)) x xs w e h = waits_Safe k q w x xs e s h.0 h.1
trap_body-Back k q (syscall (sys_sem_post s)) x xs w e h =
    inl (post-Back k q w x xs e s h.0 h.1 h.2)

-- From a well-formed state with a running process and one that is ready, irq_handle of the
-- timer interrupt or of SYS_HANDOUT, SYS_EXIT, SYS_SLEEP, SYS_JOIN, SYS_SEM_CLOSE, SYS_SEM_WAIT
-- or SYS_SEM_POST ends, without a bad access and with the fuel that there is: it comes back or
-- switches to a process, in a well-formed state with a running process. A semaphore that is
-- named is to be one of sems, with any argument else; where it is waited for or posted, its
-- count is to be that of free units or minus that of the waiters, and for a post not 2^31 - 1.
pub irq_handle-Safe :
    (k : Kernel) (q : Queues) (t : Trap) (tf : ℕ) (x : Ptr) (xs : List Ptr)
    → WellFormed k q
    → q ready_place ≡ x ∷ xs
    → IsFit k q t
    → Safe (irq_handle t tf k)
unfolding irq_handle
irq_handle-Safe k q t tf x xs w e h =
    let f = λ (c : Pcb). record c { tf = tf } in
    let m = amend k.current f k in
    rw (store-amend k.current f k w.running) (
      and_scheduler-Safe (trap_body t m) (
        trap_body-Back m q t x xs (WellFormed-amend k.current k q f (λ c. refl) (λ c. refl) w) e
          (IsFit-amend k.current k q t f h)))

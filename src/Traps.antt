-- ===== src/Traps.antt =====
-- irq_handle of kernel/src/irq/irq_handle.c and do_syscall of kernel/src/do_syscall.c, for the traps
-- that concern processes: the timer interrupt, and the system calls that move PCBs between lists.
pub mod States
pub mod Bodies
pub mod Safety
pub mod Turns
pub mod Reach
pub mod Calls
use sebopesyslab.Base.{ℕ, ◌+◌, ◌*◌, ◌%◌, ◌^◌, u32}
use sebopesyslab.Kernel.{Ptr, stop, sleeping, Pcb, Kernel}
use sebopesyslab.Kernel.Run.{Cmd, pure, get, modify, ◌>>=◌, ◌>>◌, store}
use sebopesyslab.Scheduler.{do_scheduler}
use sebopesyslab.Timer.{do_timer}
use sebopesyslab.Semaphore.{sem_close_kr, sem_post_kr, sem_wait_kr}
use sebopesyslab.Process.{exit_current, join_current}

-- The number in eax, with ebx where the call has an argument.
pub data Syscall : Type 0 where
  sys_handout sys_exit : Syscall
  sys_sleep sys_join sys_sem_close sys_sem_wait sys_sem_post : ℕ → Syscall

-- irq 1000, and irq 0x80
pub data Trap : Type 0 where
  timer : Trap
  syscall : Syscall → Trap

pub serve : Syscall → Cmd (Unit {0})
serve sys_handout = do k ← get; store k.current (λ c. record c { ts = stop })
serve sys_exit = exit_current
serve (sys_sleep ebx) = do
  k ← get
  store k.current (λ c. record c { ts = sleeping })
  store k.current (λ c. record c { timeslice = u32 (ebx * 200) })
serve (sys_join ebx) = join_current ebx
serve (sys_sem_close ebx) = sem_close_kr ebx
serve (sys_sem_wait ebx) = sem_wait_kr ebx
serve (sys_sem_post ebx) = sem_post_kr ebx

pub trap_body : Trap → Cmd (Unit {0})
trap_body timer = do_timer
trap_body (syscall s) = serve s

-- None of these calls writes eax, so that do_scheduler follows each of them that comes back.
pub irq_handle : Trap → (tf : ℕ) → Cmd (Unit {0})
irq_handle t tf = do k ← get; store k.current (λ c. record c { tf = tf }); trap_body t; do_scheduler

-- ===== src/Kernel.antt =====
-- The state that kernel/src/process.c, scheduler.c, semaphore.c and timer.c share, and the
-- commands over it: `PCB` and the list heads of kernel/include/process.h, `Semaphore` of
-- kernel/include/semaphore.h. A `PCB*` is a number: NULL is 0 and `&PCBPool[i]` is i + 1.
pub mod Run
use sebopesyslab.Base.{ℕ, ◌+◌, ◌≤◌, ◌<◌, List, ◌==◌, ltb, ◌||◌, if◌then◌else◌, Bool}

abbrev pub Ptr : Type 0
Ptr = ℕ

abbrev pub null : Ptr
null = 0

-- PCBPOOLMAX
abbrev pub pcb_pool_max : ℕ
pcb_pool_max = 1000

-- TASK_STATE and TASK_TYPE
pub data TaskState : Type 0 where
  ready running stop sleeping hungup : TaskState

pub data TaskType : Type 0 where
  kernel user thread : TaskType

-- `struct PCB` without its stacks. `fcb` holds the `fd_kr` of each FCB.
pub record Pcb : Type 0 where
  pub used : ℕ
  pub pid : ℕ
  pub ppid : ℕ
  pub ts : TaskState
  pub tt : TaskType
  pub timeslice : ℕ
  pub tf : ℕ
  pub pgdir : ℕ
  pub fcb : ℕ → ℕ
  pub next : Ptr
  pub tail : Ptr
  pub join_list : Ptr

-- `count` is the bit pattern of an `int`.
pub record Semaphore : Type 0 where
  pub used : ℕ
  pub count : ℕ
  pub block_list : Ptr

-- `cr3` is the page directory last given to `lcr3`, `esp0` the PCB whose `kstacktop` was last given
-- to `set_tss_esp0`.
pub record Kernel : Type 0 where
  pub pool : Ptr → Pcb
  pub pid : ℕ
  pub current : Ptr
  pub ready_list : Ptr
  pub sleep_list : Ptr
  pub sems : Ptr → Semaphore
  pub tick : ℕ
  pub count : ℕ
  pub cr3 : ℕ
  pub esp0 : Ptr

abbrev pub update {ℓ} : {A : Type ℓ} → (ℕ → A) → ℕ → A → ℕ → A
update f a v b = if b == a then v else f b

-- The places that a `PCB** head` points to: the two global lists, the `block_list` of a semaphore
-- and the `join_list` of a PCB.
pub data Place : Type 0 where
  ready_place sleep_place : Place
  block : Ptr → Place
  join : Ptr → Place

abbrev pub head : Place → Kernel → Ptr
head ready_place k = k.ready_list
head sleep_place k = k.sleep_list
head (block s) k = (k.sems s).block_list
head (join p) k = (k.pool p).join_list

abbrev pub set_pcb : Ptr → Pcb → Kernel → Kernel
set_pcb p c k = record k { pool = update k.pool p c }

abbrev pub set_sem : Ptr → Semaphore → Kernel → Kernel
set_sem s c k = record k { sems = update k.sems s c }

abbrev pub set_head : Place → Ptr → Kernel → Kernel
set_head ready_place q k = record k { ready_list = q }
set_head sleep_place q k = record k { sleep_list = q }
set_head (block s) q k = set_sem s (record (k.sems s) { block_list = q }) k
set_head (join p) q k = set_pcb p (record (k.pool p) { join_list = q }) k

-- A pointer into PCBPool.
abbrev pub IsPcb : Ptr → Type 0
IsPcb p = (0 < p) × (p ≤ pcb_pool_max)

abbrev pub not_pcb : Ptr → Bool
not_pcb p = (p == null) || ltb pcb_pool_max p

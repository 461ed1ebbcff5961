-- ===== src/Process/Create.antt =====
-- pcb_create of kernel/src/process.c, over the lists of processes and the pages together. `tf_pool` is
-- the address of tfPool, `kern_pgdir` the frame of the kernel's page directory, and
-- `image_end` the first frame behind the kernel's code and data, which the linker places: PCBPool and
-- the other global variables are below it.
pub mod Spaces
use sebopesyslab.Base.{ℕ, true, ◌+◌, ◌*◌, ◌-◌, ◌%◌, ◌^◌, ◌==◌, ltb, if◌then◌else◌, minus_one, u32}
use sebopesyslab.Base.Search.{first_from}
use sebopesyslab.Base.Action.{Outcome, Action, ok, fault, pure, get, modify, refuse, ◌>>=◌, ◌>>◌}
use sebopesyslab.Kernel.{Ptr, pcb_pool_max, Pcb, Kernel}
use sebopesyslab.Kernel.Run.{Run, Cmd, switched, out_of_fuel, store}
use sebopesyslab.Scheduler.{kernbase}
use sebopesyslab.Paging.{Vm, Page, null, frame, slot, page_size, memcpy}
use sebopesyslab.Paging.Pool.{page_alloc, page_incref}

pub record Machine : Type 0 where
  pub kernel : Kernel
  pub vm : Vm

-- A command on one of the two parts.
abbrev pub kernel_part : {A : Type 0} → Run A → Machine → Outcome Machine A
kernel_part (Run.ok a k) m = ok a (record m { kernel = k })
kernel_part (Run.switched k) m = fault
kernel_part Run.fault m = fault
kernel_part Run.out_of_fuel m = fault

abbrev pub on_kernel : {A : Type 0} → Cmd A → Action Machine A
on_kernel c m = kernel_part (c m.kernel) m

abbrev pub vm_part : {A : Type 0} → Outcome Vm A → Machine → Outcome Machine A
vm_part (ok a v) m = ok a (record m { vm = v })
vm_part fault m = fault

abbrev pub on_vm : {A : Type 0} → Action Vm A → Action Machine A
on_vm c m = vm_part (c m.vm) m

-- sizeof(struct TrapFrame)
abbrev pub tf_size : ℕ
tf_size = 4 * 19

-- `for(i=0; i<PCBPOOLMAX; i++) if(!PCBPool[i].used) break;`
unfoldable pub find_unused : Kernel → ℕ
find_unused k = first_from pcb_pool_max 0 (λ i. (k.pool (i + 1)).used == 0)

-- page2kva
abbrev pub page_kva : Page → ℕ
page_kva pp = kernbase + frame pp * page_size

-- The first assignments to a new PCB, at index `i`
abbrev pub reserve : (tf_pool i : ℕ) → Pcb → Pcb
reserve tf_pool i c = record c { tf = tf_pool + i * tf_size; fcb = λ j. minus_one; used = 1 }

-- Those once it has a page
abbrev pub identify : (pid : ℕ) → Page → Pcb → Pcb
identify pid pp c = record c { pgdir = page_kva pp; pid = pid; timeslice = 0 }

abbrev pub next_pid : Kernel → Kernel
next_pid k = record k { pid = u32 (k.pid + 1) }

-- A page below `image_end` is part of PCBPool or of another variable, and page_alloc has cleared it: the
-- run ends there.
pub pcb_create : (tf_pool kern_pgdir image_end : ℕ) → Action Machine Ptr
pcb_create tf_pool kern_pgdir image_end = do
  m ← get
  let i = find_unused m.kernel
  on_kernel (store (i + 1) (reserve tf_pool i))
  pp ← on_vm (page_alloc true)
  if pp == null then pure 0 else if ltb (frame pp) image_end then refuse else do
    on_kernel (store (i + 1) (identify m.kernel.pid pp))
    modify (λ n. record n { kernel = next_pid n.kernel })
    on_vm (page_incref pp)
    on_vm (memcpy (slot (frame pp) 0) (slot kern_pgdir 0) page_size)
    pure (i + 1)

-- ===== src/Tests/Running.antt =====
-- The theorems on traps at the state of States.
use sebopesyslab.Base.{◌≢◌, refl, arith, []}
use sebopesyslab.Kernel.{null, ready_place}
use sebopesyslab.Queue.Rep.{Idle}
use sebopesyslab.Traps.{timer, syscall, sys_sem_close, irq_handle}
use sebopesyslab.Traps.States.{WellFormed, Safe}
use sebopesyslab.Traps.Safety.{irq_handle-Safe}
use sebopesyslab.Traps.Reach.{here, trap, Good, Reaches-Good}
use sebopesyslab.Traps.Turns.{Arrives, yields-Arrives}
use sebopesyslab.Tests.States.{lists, state, Rep_state, Idle-lists, at_current}
use sebopesyslab.Kernel.{IsPcb}

WellFormed-state : WellFormed (state 9) lists
WellFormed-state = record {
  lists = Rep_state 9;
  running = at_current 9 IsPcb (omega arith);
  idle = at_current 9 (Idle lists) (Idle-lists 9 (ground arith));
}

irq_handle-Safe_example : Safe (irq_handle (syscall (sys_sem_close 5)) 77 (state 9))
irq_handle-Safe_example =
    irq_handle-Safe (state 9) lists (syscall (sys_sem_close 5)) 77 1 [] WellFormed-state refl
      (omega arith)

some_ready : (state 9).ready_list ≢ null
some_ready z = omega (arith, z, ((Rep_state 9).queues ready_place).0)

Reaches-Good_example :
    Good (irq_handle-Safe (state 9) lists timer 77 1 [] WellFormed-state refl tt).out
Reaches-Good_example =
    Reaches-Good (state 9)
      (irq_handle-Safe (state 9) lists timer 77 1 [] WellFormed-state refl tt).out
      (record { queues = lists; well = WellFormed-state })
      (trap (state 9) (irq_handle-Safe (state 9) lists timer 77 1 [] WellFormed-state refl tt).out
        timer 77 here some_ready (λ q r. tt)
        (irq_handle-Safe (state 9) lists timer 77 1 [] WellFormed-state refl tt).ends)

yields-Arrives_example : Arrives 0 (state 9) 1
yields-Arrives_example = yields-Arrives 0 (state 9) lists 77 1 WellFormed-state refl

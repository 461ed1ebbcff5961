-- ===== src/Traps/Reach.antt =====
-- The states that the kernel reaches by traps.
use mathlib.Core.Path.{subst}
use sebopesyslab.Base.{ℕ, ◌≡◌, ◌≢◌, sym, ◌∙◌, ap, inl, inr, List, ◌∷◌}
use sebopesyslab.Kernel.{Ptr, null, Kernel, ready_place}
use sebopesyslab.Kernel.Run.{Run, ok, switched, fault, out_of_fuel}
use sebopesyslab.Queue.Chain.{IsQueue}
use sebopesyslab.Queue.Rep.{Queues, Rep}
use sebopesyslab.Traps.{Trap, irq_handle}
use sebopesyslab.Traps.States.{WellFormed, EndsIn, comes_back, switches}
use sebopesyslab.Traps.Bodies.{List-cases}
use sebopesyslab.Traps.Safety.{IsFit, irq_handle-Safe}

-- Traps one after the other, each of them while a process is ready and, with a semaphore, where it
-- names one, that is fit for it.
pub data Reaches (start : Kernel) : Kernel → Type 0 where
  here : Reaches start start
  trap :
      (m n : Kernel) (t : Trap) (tf : ℕ)
      → Reaches start m
      → m.ready_list ≢ null
      → ((q : Queues) → Rep m q → IsFit m q t)
      → EndsIn (irq_handle t tf m) n
      → Reaches start n

pub record Good (k : Kernel) : Type 0 where
  pub queues : Queues
  pub well : WellFormed k queues

state_of : Run (Unit {0}) → Kernel → Kernel
state_of (ok u k) d = k
state_of (switched k) d = k
state_of fault d = d
state_of out_of_fuel d = d

EndsIn-state_of : (r : Run (Unit {0})) (k d : Kernel) → EndsIn r k → state_of r d ≡ k
unfolding state_of
EndsIn-state_of r k d (comes_back e) = ap (λ z. state_of z d) e
EndsIn-state_of r k d (switches e) = ap (λ z. state_of z d) e

-- The ready list has a first process when its head is not NULL.
pub Rep-ready :
    (k : Kernel) (q : Queues)
    → Rep k q
    → k.ready_list ≢ null
    → (x : Ptr) × (xs : List Ptr) × (q ready_place ≡ x ∷ xs)
Rep-ready k q r o = elim (List-cases (q ready_place)) [
  | inl none ↦ absurd (o (subst (λ l. IsQueue k ready_place l) none (r.queues ready_place)))
  | inr some_first ↦ some_first
]

-- Whatever sequence of these traps leads from a well-formed state with a running process to a
-- state, each of them while some process is ready, and with a semaphore, where it names one, of
-- sems, whose count is that of free units or minus that of the waiters where it is waited for
-- or posted, and not 2^31 - 1 for a post, that state is well formed with a running process,
-- which is a PCB of the pool in no list.
pub Reaches-Good : (start k : Kernel) → Good start → Reaches start k → Good k
Reaches-Good start k g here = g
Reaches-Good start k g (trap m n t tf before some_ready counts e) =
    let w = Reaches-Good start m g before in
    let f = Rep-ready m w.queues w.well.lists some_ready in
    let s = irq_handle-Safe m w.queues t tf f.0 f.1 w.well f.2 (counts w.queues w.well.lists) in
    let r = irq_handle t tf m in
    let same : s.out ≡ n = sym (EndsIn-state_of r s.out m s.ends) ∙ EndsIn-state_of r n m e in
    record { queues = s.queues; well = subst (λ z. WellFormed z s.queues) same s.well }

-- ===== src/Traps/States.antt =====
-- Well-formed states with a running process, and the runs that end in one.
use mathlib.Core.Path.{subst}
use sebopesyslab.Base.{
  ◌≡◌, refl, sym, ap, ◌||◌, ◌⊎◌, inl, inr, List, [], ◌∷◌, ◌++◌, Bool-cases, ltb,
}
use sebopesyslab.Kernel.{Ptr, Pcb, Kernel, ready_place, IsPcb}
use sebopesyslab.Kernel.Run.{Run, ok, switched, and_then}
use sebopesyslab.Queue.Rep.{Queues, put, Idle, Rep}
use sebopesyslab.Queue.Amend.{amend, current-amend, Rep-amend}
use sebopesyslab.Scheduler.{do_scheduler, is_sleeping, is_stop}
use sebopesyslab.Scheduler.Laws.{
  Switched, do_scheduler_keeps, do_scheduler_sleeps, do_scheduler_rotates,
}
use sebopesyslab.Scheduler.Switch.{counted, Rep-counted}

-- The lists are well formed, and the running process is in none of them.
pub record WellFormed (k : Kernel) (q : Queues) : Type 0 where
  pub lists : Rep k q
  pub running : IsPcb k.current
  pub idle : Idle q k.current

-- The run has come back to the interrupted process, or switched to another.
pub data EndsIn (r : Run (Unit {0})) (k : Kernel) : Type 0 where
  comes_back : r ≡ ok tt k → EndsIn r k
  switches : r ≡ switched k → EndsIn r k

pub record Safe (r : Run (Unit {0})) : Type 0 where
  pub out : Kernel
  pub queues : Queues
  pub ends : EndsIn r out
  pub well : WellFormed out queues

-- A body that has come back, with a process ready.
pub record Back (r : Run (Unit {0})) : Type 0 where
  pub out : Kernel
  pub queues : Queues
  pub ends : r ≡ ok tt out
  pub well : WellFormed out queues
  pub front : Ptr
  pub rest : List Ptr
  pub waits : queues ready_place ≡ front ∷ rest

-- A body that has switched to another process.
pub record Gone (r : Run (Unit {0})) : Type 0 where
  pub out : Kernel
  pub queues : Queues
  pub ends : r ≡ switched out
  pub well : WellFormed out queues

pub WellFormed_switched :
    {k : Kernel} {x : Ptr} {xs : List Ptr} {q : Queues} {r : Run (Unit {0})}
    (s : Switched k x xs q r)
    → WellFormed s.out (put ready_place xs q)
WellFormed_switched {k} {x} {xs} {q} s = record {
  lists = s.lists;
  running = subst IsPcb (sym s.runs.is_current) s.in_pool;
  idle = subst (Idle (put ready_place xs q)) (sym s.runs.is_current) s.in_no_list;
}

pub Gone-Switched :
    {k : Kernel} {x : Ptr} {xs : List Ptr} {q : Queues} {r : Run (Unit {0})}
    → Switched k x xs q r
    → Gone r
Gone-Switched {k} {x} {xs} {q} s = record {
  out = s.out;
  queues = put ready_place xs q;
  ends = s.ends;
  well = WellFormed_switched s;
}

pub Safe-Gone : {r : Run (Unit {0})} → Gone r → Safe r
Safe-Gone g = record { out = g.out; queues = g.queues; ends = switches g.ends; well = g.well }

pub do_scheduler-Safe :
    (k : Kernel) (q : Queues) (x : Ptr) (xs : List Ptr)
    → WellFormed k q
    → q ready_place ≡ x ∷ xs
    → Safe (do_scheduler k)
do_scheduler-Safe k q x xs w e =
    let c = k.pool k.current in
    elim (Bool-cases (is_sleeping c.ts)) [
      | inl sleeps ↦
          Safe-Gone (Gone-Switched (do_scheduler_sleeps k q w.lists w.running x xs w.idle sleeps e))
      | inr awake ↦ elim (Bool-cases (ltb 2 c.timeslice || is_stop c.ts)) [
        | inl expired ↦ Safe-Gone (
            Gone-Switched (
              do_scheduler_rotates k q w.lists w.running x (xs ++ k.current ∷ []) w.idle awake
                expired (ap (λ l. l ++ k.current ∷ []) e)))
        | inr goes_on ↦ record {
          out = counted k;
          queues = q;
          ends = comes_back (do_scheduler_keeps k q w.lists w.running awake goes_on);
          well = record { lists = Rep-counted w.lists; running = w.running; idle = w.idle };
        }
      ]
    ]

-- The body of a trap, and then the scheduler.
pub and_scheduler-Safe :
    (r : Run (Unit {0})) → Back r ⊎ Gone r → Safe (and_then r (λ _. do_scheduler))
and_scheduler-Safe r (inl b) =
    let s = do_scheduler-Safe b.out b.queues b.front b.rest b.well b.waits in
    subst (λ z. Safe (and_then z (λ _. do_scheduler))) (sym b.ends) s
and_scheduler-Safe r (inr g) =
    subst (λ z. Safe (and_then z (λ _. do_scheduler))) (sym g.ends)
      (record { out = g.out; queues = g.queues; ends = switches refl; well = g.well })

-- A change of a process that keeps links.
pub WellFormed-amend :
    (p : Ptr) (k : Kernel) (q : Queues) (f : Pcb → Pcb)
    → ((c : Pcb) → (f c).next ≡ c.next)
    → ((c : Pcb) → (f c).join_list ≡ c.join_list)
    → WellFormed k q
    → WellFormed (amend p f k) q
WellFormed-amend p k q f n j w =
    let same = sym (current-amend p f k) in
    record {
      lists = Rep-amend p f w.lists n j;
      running = subst IsPcb same w.running;
      idle = subst (Idle q) same w.idle;
    }

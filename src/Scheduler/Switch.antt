-- ===== src/Scheduler/Switch.antt =====
-- The switch to the first ready process.
use sebopesyslab.Base.{ℕ, suc, ◌+◌, ◌≡◌, refl, List, ◌∷◌, u32, ◌∙◌, ap, eq→==}
use sebopesyslab.Kernel.{Ptr, null, ready, running, Pcb, Kernel, ready_place}
use sebopesyslab.Kernel.Run.{switched}
use sebopesyslab.Queue.Chain.{load-ok}
use sebopesyslab.Queue.Rep.{Queues, put, Rep, ll_pop-Rep}
use sebopesyslab.Queue.Delete.{popped}
use sebopesyslab.Queue.Amend.{
  amend, store-amend, amend_self, sems-amend, uses-amend, Rep-amend, Rep_globals,
}
use sebopesyslab.Scheduler.{paddr, switch_next, schedule, scheduler_switch}
use sebopesyslab.Queue.Relinks.{globals}

-- `x` runs: it is current, with a fresh timeslice and its own address space and kernel stack.
pub record Runs (k : Kernel) (x : Ptr) : Type 0 where
  pub is_current : k.current ≡ x
  pub is_running : (k.pool x).ts ≡ running
  pub fresh_slice : (k.pool x).timeslice ≡ 0
  pub own_space : k.cr3 ≡ paddr (k.pool x).pgdir
  pub own_stack : k.esp0 ≡ x

abbrev mark_running : Pcb → Pcb
mark_running c = record c { ts = running }

abbrev pub fresh : Pcb → Pcb
fresh c = record c { timeslice = 0 }

abbrev pub mark_ready : Pcb → Pcb
mark_ready c = record c { ts = ready }

abbrev pub with_current : Ptr → Kernel → Kernel
with_current p k = record k { current = p }

abbrev pub counted : Kernel → Kernel
counted k = record k { count = u32 (k.count + 1) }

abbrev prepared : Ptr → Kernel → Kernel
prepared x k = amend x fresh (amend x mark_running (with_current x (popped ready_place x k)))

-- The state in which `x` has been taken off the ready list and runs.
abbrev pub started : Ptr → Kernel → Kernel
started x k = record (prepared x k) {
  current = x;
  cr3 = paddr ((prepared x k).pool x).pgdir;
  esp0 = x;
}

pub switch_next-ok :
    (x : Ptr) (xs : List Ptr) (k : Kernel) (q : Queues)
    → Rep k q
    → q ready_place ≡ x ∷ xs
    → switch_next k ≡ switched (started x k)
unfolding switch_next scheduler_switch
switch_next-ok x xs k q r e =
    let (ran, r', idle, v, f) = ll_pop-Rep ready_place x xs k q r e in
    rw (
      ran,
      store-amend x mark_running (with_current x (popped ready_place x k)) v,
      store-amend x fresh (amend x mark_running (with_current x (popped ready_place x k))) v,
      load-ok x (with_current x (prepared x k)) v,
    )

pub Rep-started :
    (x : Ptr) (xs : List Ptr) (k : Kernel) (q : Queues)
    → Rep k q
    → q ready_place ≡ x ∷ xs
    → Rep (started x k) (put ready_place xs q)
Rep-started x xs k q r e =
    let p = popped ready_place x k in
    let m = prepared x k in
    Rep_globals {k = m} m.pid x m.tick m.count (paddr (m.pool x).pgdir) x (
      Rep-amend x fresh
        (Rep-amend x mark_running
          (Rep_globals {k = p} p.pid x p.tick p.count p.cr3 p.esp0
            (ll_pop-Rep ready_place x xs k q r e).1)
          (λ c. refl) (λ c. refl))
        (λ c. refl) (λ c. refl))

pub Runs-started : (x : Ptr) (k : Kernel) → Runs (started x k) x
Runs-started x k = record {
  is_current = refl;
  is_running =
      ap (λ c. c.ts)
        (amend_self x fresh (amend x mark_running (with_current x (popped ready_place x k))))
      ∙ ap (λ c. c.ts) (amend_self x mark_running (with_current x (popped ready_place x k)));
  fresh_slice =
      ap (λ c. c.timeslice)
        (amend_self x fresh (amend x mark_running (with_current x (popped ready_place x k))));
  own_space = refl;
  own_stack = refl;
}

pub schedule-null :
    (n : ℕ) (k : Kernel) → k.current ≡ null → schedule (suc n) k ≡ switch_next (counted k)
unfolding schedule
schedule-null n k e = rw (eq→== k.current null e)

pub Rep-counted : {k : Kernel} {q : Queues} → Rep k q → Rep (counted k) q
Rep-counted {k} r = Rep_globals k.pid k.current k.tick (u32 (k.count + 1)) k.cr3 k.esp0 r

abbrev pub sem_count : Kernel → Ptr → ℕ
sem_count k s = (k.sems s).count

pub sem_count_of_globals :
    (k k' : Kernel) → globals k' ≡ globals k → (s : Ptr) → sem_count k' s ≡ sem_count k s
sem_count_of_globals k k' e s = ap (λ g. (g.sems s).count) e

pub sem_count-started :
    (x : Ptr) (xs : List Ptr) (k : Kernel) (q : Queues)
    → Rep k q
    → q ready_place ≡ x ∷ xs
    → (s : Ptr) → sem_count (started x k) s ≡ sem_count k s
sem_count-started x xs k q r e s =
    let p = popped ready_place x k in
    ap (λ f. (f s).count) (sems-amend x fresh (amend x mark_running (with_current x p)))
    ∙ ap (λ f. (f s).count) (sems-amend x mark_running (with_current x p))
    ∙ sem_count_of_globals k p (ll_pop-Rep ready_place x xs k q r e).4.data_kept s

abbrev pub uses : Kernel → Ptr → ℕ
uses k a = (k.pool a).used

pub uses_of_globals : (k k' : Kernel) → globals k' ≡ globals k → (a : Ptr) → uses k' a ≡ uses k a
uses_of_globals k k' e a = ap (λ g. (g.pool a).used) e

pub uses-started :
    (x : Ptr) (xs : List Ptr) (k : Kernel) (q : Queues)
    → Rep k q
    → q ready_place ≡ x ∷ xs
    → (a : Ptr) → uses (started x k) a ≡ uses k a
uses-started x xs k q r e a =
    let p = popped ready_place x k in
    uses-amend x fresh (amend x mark_running (with_current x p)) (λ c. refl) a
    ∙ uses-amend x mark_running (with_current x p) (λ c. refl) a
    ∙ uses_of_globals k p (ll_pop-Rep ready_place x xs k q r e).4.data_kept a

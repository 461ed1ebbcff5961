-- ===== src/Scheduler/Laws.antt =====
-- What `do_scheduler` does in each state of the current process.
use sebopesyslab.Base.{
  ℕ, suc, ◌+◌, ◌≡◌, refl, true, false, ◌||◌, List, [], ◌∷◌, ◌++◌, arith, ltb, u32, ◌∙◌, ap,
  ne→==_false,
}
use sebopesyslab.Kernel.{Ptr, null, Kernel, ready_place, sleep_place, IsPcb}
use sebopesyslab.Kernel.Run.{ok, switched, Run, ◌>>◌, store}
use sebopesyslab.Queue.Chain.{load-ok}
use sebopesyslab.Queue.Rep.{Queues, put, Idle, Rep, ll_entail-Rep, ll_pop-Rep}
use sebopesyslab.Queue.Entail.{entailed}
use sebopesyslab.Queue.Amend.{amend, store-amend, sems-amend, uses-amend, Rep-amend, Rep_globals}
use sebopesyslab.Scheduler.{is_sleeping, is_stop, schedule, do_scheduler, drop_current}
use sebopesyslab.Queue.{ll_entail}
use sebopesyslab.Scheduler.Switch.{
  uses-started, Rep-counted, Rep-started, Runs, Runs-started, counted, mark_ready, schedule-null,
  sem_count, sem_count-started, sem_count_of_globals, started, switch_next-ok, uses,
  uses_of_globals, with_current,
}

-- What a switch from `k` to `x` leaves: `x` runs, the lists are `q` with `x` taken off the ready
-- list, `xs` being the rest of it, the semaphores count as before, the same PCBs are in use, and `x`
-- is a PCB of the pool that is in no list.
pub record Switched (k : Kernel) (x : Ptr) (xs : List Ptr) (q : Queues) (r : Run (Unit {0}))
    : Type 0 where
  pub out : Kernel
  pub ends : r ≡ switched out
  pub lists : Rep out (put ready_place xs q)
  pub runs : Runs out x
  pub same_counts : (s : Ptr) → sem_count out s ≡ sem_count k s
  pub same_uses : (a : Ptr) → uses out a ≡ uses k a
  pub in_pool : IsPcb x
  pub in_no_list : Idle (put ready_place xs q) x

pub Switched-eq :
    {k k' : Kernel} {x : Ptr} {xs : List Ptr} {q : Queues} {r r' : Run (Unit {0})}
    → r ≡ r'
    → ((s : Ptr) → sem_count k' s ≡ sem_count k s)
    → ((a : Ptr) → uses k' a ≡ uses k a)
    → Switched k' x xs q r'
    → Switched k x xs q r
Switched-eq e same same' w = record {
  out = w.out;
  ends = e ∙ w.ends;
  lists = w.lists;
  runs = w.runs;
  same_counts = λ s. w.same_counts s ∙ same s;
  same_uses = λ a. w.same_uses a ∙ same' a;
  in_pool = w.in_pool;
  in_no_list = w.in_no_list;
}

schedule-Switched :
    (n : ℕ) (x : Ptr) (xs : List Ptr) (k : Kernel) (q : Queues)
    → Rep k q
    → k.current ≡ null
    → q ready_place ≡ x ∷ xs
    → Switched k x xs q (schedule (suc n) k)
schedule-Switched n x xs k q r e f = record {
  out = started x (counted k);
  ends = schedule-null n k e ∙ switch_next-ok x xs (counted k) q (Rep-counted r) f;
  lists = Rep-started x xs (counted k) q (Rep-counted r) f;
  runs = Runs-started x (counted k);
  same_counts = sem_count-started x xs (counted k) q (Rep-counted r) f;
  same_uses = uses-started x xs (counted k) q (Rep-counted r) f;
  in_pool = (ll_pop-Rep ready_place x xs (counted k) q (Rep-counted r) f).3;
  in_no_list = (ll_pop-Rep ready_place x xs (counted k) q (Rep-counted r) f).2;
}

-- With no current process the first ready one runs, and leaves the ready list.
pub do_scheduler-null :
    (x : Ptr) (xs : List Ptr) (k : Kernel) (q : Queues)
    → Rep k q
    → k.current ≡ null
    → q ready_place ≡ x ∷ xs
    → Switched k x xs q (do_scheduler k)
unfolding do_scheduler
do_scheduler-null x xs k q r e f = schedule-Switched 1 x xs k q r e f

module _ (n : ℕ) (k : Kernel) (v : IsPcb k.current) where
  schedule-sleeping :
      is_sleeping (k.pool k.current).ts ≡ true
      → schedule (suc n) k
        ≡ (ll_entail sleep_place k.current >> (drop_current >> schedule n)) (counted k)
  unfolding schedule
  schedule-sleeping e =
      rw (ne→==_false k.current null (omega (arith, v)), load-ok k.current (counted k) v, e)

  schedule-expired :
      is_sleeping (k.pool k.current).ts ≡ false
      → (ltb 2 (k.pool k.current).timeslice || is_stop (k.pool k.current).ts) ≡ true
      → schedule (suc n) k
        ≡ (store k.current mark_ready
              >> (ll_entail ready_place k.current >> (drop_current >> schedule n)))
            (counted k)
  unfolding schedule
  schedule-expired e f =
      rw (ne→==_false k.current null (omega (arith, v)), load-ok k.current (counted k) v, e, f)

  schedule-keeps :
      is_sleeping (k.pool k.current).ts ≡ false
      → (ltb 2 (k.pool k.current).timeslice || is_stop (k.pool k.current).ts) ≡ false
      → schedule (suc n) k ≡ ok tt (counted k)
  unfolding schedule
  schedule-keeps e f =
      rw (ne→==_false k.current null (omega (arith, v)), load-ok k.current (counted k) v, e, f)

module _ (k : Kernel) (q : Queues) (r : Rep k q) (v : IsPcb k.current) where
  -- A current process that neither sleeps nor yields nor has used more than two ticks goes on:
  -- do_scheduler changes nothing but its call counter.
  pub do_scheduler_keeps :
      is_sleeping (k.pool k.current).ts ≡ false
      → (ltb 2 (k.pool k.current).timeslice || is_stop (k.pool k.current).ts) ≡ false
      → do_scheduler k ≡ ok tt (record k { count = u32 (k.count + 1) })
  unfolding do_scheduler
  do_scheduler_keeps e f = schedule-keeps 1 k v e f

  -- On well-formed lists, a current process in state SLEEPING goes to the end of the sleep
  -- list, and the first ready process, if there is one, is switched to.
  pub do_scheduler_sleeps :
      (x : Ptr) (xs : List Ptr)
      → Idle q k.current
      → is_sleeping (k.pool k.current).ts ≡ true
      → q ready_place ≡ x ∷ xs
      → Switched k x xs (put sleep_place (q sleep_place ++ k.current ∷ []) q) (do_scheduler k)
  unfolding do_scheduler
  do_scheduler_sleeps x xs idle e f =
      let (ran, r', linked) =
        ll_entail-Rep sleep_place k.current (counted k) q (Rep-counted r) v idle in
      let k' = entailed sleep_place k.current (q sleep_place) (counted k) in
      Switched-eq (schedule-sleeping 1 k v e ∙ (rw ran))
        (sem_count_of_globals (counted k) k' linked.data_kept)
        (uses_of_globals (counted k) k' linked.data_kept)
        (schedule-Switched 0 x xs (with_current null k') _
          (Rep_globals {k = k'} k'.pid null k'.tick k'.count k'.cr3 k'.esp0 r') refl f)

  -- On well-formed lists, a current process that does not sleep and has used more than two
  -- ticks, or yields, goes to the end of the ready list, and the first ready process is
  -- switched to with state RUNNING and a fresh timeslice.
  pub do_scheduler_rotates :
      (x : Ptr) (xs : List Ptr)
      → Idle q k.current
      → is_sleeping (k.pool k.current).ts ≡ false
      → (ltb 2 (k.pool k.current).timeslice || is_stop (k.pool k.current).ts) ≡ true
      → q ready_place ++ k.current ∷ [] ≡ x ∷ xs
      → Switched k x xs (put ready_place (q ready_place ++ k.current ∷ []) q) (do_scheduler k)
  unfolding do_scheduler
  do_scheduler_rotates x xs idle e t f =
      let m = amend k.current mark_ready (counted k) in
      let (ran, r', linked) =
        ll_entail-Rep ready_place k.current m q
          (Rep-amend k.current mark_ready (Rep-counted r) (λ c. refl) (λ c. refl)) v idle in
      let k' = entailed ready_place k.current (q ready_place) m in
      Switched-eq
        (schedule-expired 1 k v e t ∙ (rw (store-amend k.current mark_ready (counted k) v, ran)))
        (λ s.
          sem_count_of_globals m k' linked.data_kept s
          ∙ ap (λ f. (f s).count) (sems-amend k.current mark_ready (counted k)))
        (λ a.
          uses_of_globals m k' linked.data_kept a
          ∙ uses-amend k.current mark_ready (counted k) (λ c. refl) a)
        (schedule-Switched 0 x xs (with_current null k') _
          (Rep_globals {k = k'} k'.pid null k'.tick k'.count k'.cr3 k'.esp0 r') refl f)

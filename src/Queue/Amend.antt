-- ===== src/Queue/Amend.antt =====
-- Changes of the kernel that touch no list: other fields of a PCB, and the globals.
use sebopesyslab.Base.{ℕ, ◌≡◌, refl, arith, ◌==◌, false}
use sebopesyslab.Kernel.{
  Ptr, Pcb, Kernel, Place, head, ready_place, sleep_place, block, join, IsPcb, set_pcb, set_sem,
  Semaphore,
}
use sebopesyslab.Kernel.Run.{ok, store}
use sebopesyslab.Queue.Chain.{Chain-frame, store-ok}
use sebopesyslab.Queue.Rep.{Queues, Rep}

-- `*p = f(*p)`
unfoldable pub amend : Ptr → (Pcb → Pcb) → Kernel → Kernel
amend p f k = set_pcb p (f (k.pool p)) k

pub store-amend :
    (p : Ptr) (f : Pcb → Pcb) (k : Kernel) → IsPcb p → store p f k ≡ ok tt (amend p f k)
unfolding amend
store-amend p f k v = store-ok p f k v

pub amend_self : (p : Ptr) (f : Pcb → Pcb) (k : Kernel) → (amend p f k).pool p ≡ f (k.pool p)
unfolding amend
amend_self p f k = ground arith

pub amend_other :
    (p : Ptr) (f : Pcb → Pcb) (k : Kernel) (a : Ptr)
    → (a == p) ≡ false
    → (amend p f k).pool a ≡ k.pool a
unfolding amend
amend_other p f k a e = ground arith

-- The lists are the same if all heads and links are.
pub Rep_frame :
    {k k' : Kernel} {q : Queues}
    → Rep k q
    → ((l : Place) → head l k' ≡ head l k)
    → ((a : Ptr) → (k'.pool a).next ≡ (k.pool a).next)
    → Rep k' q
Rep_frame {k} {k'} {q} r heads links = record {
  queues =
      λ l. rw (heads l) (Chain-frame k.pool k'.pool (head l k) (q l) (λ a h. links a) (r.queues l));
  apart = r.apart;
}

pub Rep-amend :
    {k : Kernel} {q : Queues} (p : Ptr) (f : Pcb → Pcb)
    → Rep k q
    → ((c : Pcb) → (f c).next ≡ c.next)
    → ((c : Pcb) → (f c).join_list ≡ c.join_list)
    → Rep (amend p f k) q
unfolding amend
Rep-amend {k} p f r next_kept join_kept = Rep_frame r heads links
  where
    heads : (l : Place) → head l (set_pcb p (f (k.pool p)) k) ≡ head l k
    heads ready_place = refl
    heads sleep_place = refl
    heads (block s) = refl
    heads (join a) = ground (arith, join_kept (k.pool p))

    links : (a : Ptr) → ((set_pcb p (f (k.pool p)) k).pool a).next ≡ (k.pool a).next
    links a = ground (arith, next_kept (k.pool p))

-- The globals are in no list.
pub Rep_globals :
    {k : Kernel} {q : Queues} (pid current tick count cr3 esp0 : ℕ)
    → Rep k q
    → Rep
        (record k {
          pid = pid;
          current = current;
          tick = tick;
          count = count;
          cr3 = cr3;
          esp0 = esp0;
        })
        q
Rep_globals {k} pid current tick count cr3 esp0 r = Rep_frame r heads (λ a. refl)
  where
    heads :
        (l : Place)
        → head l (record k {
          pid = pid;
          current = current;
          tick = tick;
          count = count;
          cr3 = cr3;
          esp0 = esp0;
        })
          ≡ head l k
    heads ready_place = refl
    heads sleep_place = refl
    heads (block s) = refl
    heads (join p) = refl

-- A PCB's change leaves the globals as they are.
pub current-amend : (p : Ptr) (f : Pcb → Pcb) (k : Kernel) → (amend p f k).current ≡ k.current
unfolding amend
current-amend p f k = refl

pub tick-amend : (p : Ptr) (f : Pcb → Pcb) (k : Kernel) → (amend p f k).tick ≡ k.tick
unfolding amend
tick-amend p f k = refl

-- `*s = f(*s)` for a semaphore
unfoldable pub amend_sem : Ptr → (Semaphore → Semaphore) → Kernel → Kernel
amend_sem s f k = set_sem s (f (k.sems s)) k

module _ (s : Ptr) (f : Semaphore → Semaphore) (k : Kernel) where
  pub amend_sem_self : (amend_sem s f k).sems s ≡ f (k.sems s)
  unfolding amend_sem
  amend_sem_self = ground arith

  pub amend_sem_other : (t : Ptr) → (t == s) ≡ false → (amend_sem s f k).sems t ≡ k.sems t
  unfolding amend_sem
  amend_sem_other t e = ground arith

  pub pool-amend_sem : (amend_sem s f k).pool ≡ k.pool
  unfolding amend_sem
  pool-amend_sem = refl

  pub current-amend_sem : (amend_sem s f k).current ≡ k.current
  unfolding amend_sem
  current-amend_sem = refl

pub Rep-amend_sem :
    {k : Kernel} {q : Queues} (s : Ptr) (f : Semaphore → Semaphore)
    → Rep k q
    → ((c : Semaphore) → (f c).block_list ≡ c.block_list)
    → Rep (amend_sem s f k) q
unfolding amend_sem
Rep-amend_sem {k} s f r kept = Rep_frame r heads (λ a. refl)
  where
    heads : (l : Place) → head l (set_sem s (f (k.sems s)) k) ≡ head l k
    heads ready_place = refl
    heads sleep_place = refl
    heads (block t) = ground (arith, kept (k.sems s))
    heads (join a) = refl

pub sems-amend : (p : Ptr) (f : Pcb → Pcb) (k : Kernel) → (amend p f k).sems ≡ k.sems
unfolding amend
sems-amend p f k = refl

pub uses-amend :
    (p : Ptr) (f : Pcb → Pcb) (k : Kernel)
    → ((c : Pcb) → (f c).used ≡ c.used)
    → (a : Ptr) → ((amend p f k).pool a).used ≡ (k.pool a).used
unfolding amend
uses-amend p f k kept a = ground (arith, kept (k.pool p))

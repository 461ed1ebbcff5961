-- ===== src/Tests/States.antt =====
-- Concrete kernels: an empty one, and ones built from it with the list functions.
use mathlib.Core.Path.{subst}
use sebopesyslab.Base.{
  ◌+◌, ◌≡◌, refl, sym, ap, ◌∙◌, false, List, [], ◌∷◌, ◌++◌, arith, ◌==◌, if◌then◌else◌, minus_one,
  has, Bool-cases, inl, inr,
}
use sebopesyslab.Kernel.{
  Ptr, null, running, sleeping, user, Pcb, Kernel, Semaphore, Place, ready_place, sleep_place,
  block, join, IsPcb, head,
}
use sebopesyslab.Queue.Rep.{Queues, same_place, put, Idle, Rep, ll_entail-Rep}
use sebopesyslab.Queue.Entail.{entailed}
use sebopesyslab.Queue.Relinks.{globals, payload}

-- Process number p is `&PCBPool[p - 1]`; number 2 has one tick left, the others have four of use.
-- PCBs above 20 are not in use. Semaphore 3 counts 2 and semaphore 5 counts -1.
abbrev pub fresh_pcb : Ptr → Pcb
fresh_pcb p = record {
  used = if p == 4 then 0 else 1;
  pid = p;
  ppid = 0;
  ts = if p == 8 then sleeping else running;
  tt = user;
  timeslice = if p == 2 then 1 else if p == 7 then 0 else 4;
  tf = 0;
  pgdir = 0xf000_0000 + p;
  fcb = λ i. minus_one;
  next = null;
  tail = null;
  join_list = null;
}

abbrev pub fresh_sem : Ptr → Semaphore
fresh_sem s = record {
  used = 1;
  count = if s == 3 then 2 else if s == 5 then minus_one else 0;
  block_list = null;
}

abbrev pub empty : Ptr → Kernel
empty current = record {
  pool = fresh_pcb;
  pid = 30;
  current = current;
  ready_list = null;
  sleep_list = null;
  sems = fresh_sem;
  tick = 100;
  count = 0;
  cr3 = 0;
  esp0 = null;
}

abbrev pub no_lists : Queues
no_lists l = []

pub Rep-empty : (current : Ptr) → Rep (empty current) no_lists
Rep-empty current = record { queues = queues; apart = λ a l m h _. absurd (ground (arith, h)) }
  where
    queues : (l : Place) → head l (empty current) ≡ null
    queues ready_place = refl
    queues sleep_place = refl
    queues (block s) = refl
    queues (join p) = refl

Idle-put :
    (p : Ptr) (l : Place) (ys : List Ptr) (q : Queues)
    → Idle q p
    → has p ys ≡ false
    → Idle (put l ys q) p
Idle-put p l ys q idle e m = elim (Bool-cases (same_place m l)) [
  | inl y ↦ rw y e
  | inr n ↦ rw n (idle m)
]

pub Idle-none : (p : Ptr) → Idle no_lists p
Idle-none p l = refl

-- Process 1 is ready, 2 and 3 sleep, 6 waits for semaphore 5, and 4 and 10 joined process 7.
abbrev pub lists1 : Queues
lists1 = put ready_place (1 ∷ []) no_lists

abbrev pub lists2 : Queues
lists2 = put sleep_place (2 ∷ []) lists1

abbrev pub lists3 : Queues
lists3 = put sleep_place (2 ∷ 3 ∷ []) lists2

abbrev pub lists4 : Queues
lists4 = put (block 5) (6 ∷ []) lists3

abbrev pub lists5 : Queues
lists5 = put (join 7) (4 ∷ []) lists4

abbrev pub lists : Queues
lists = put (join 7) (4 ∷ 10 ∷ []) lists5

Idle-lists1 : (p : Ptr) → has p (1 ∷ []) ≡ false → Idle lists1 p
Idle-lists1 p e = Idle-put p ready_place (1 ∷ []) no_lists (Idle-none p) (ground (arith, e))

Idle-lists2 : (p : Ptr) → has p (1 ∷ 2 ∷ []) ≡ false → Idle lists2 p
Idle-lists2 p e =
    Idle-put p sleep_place (2 ∷ []) lists1 (Idle-lists1 p (ground (arith, e))) (ground (arith, e))

Idle-lists3 : (p : Ptr) → has p (1 ∷ 2 ∷ 3 ∷ []) ≡ false → Idle lists3 p
Idle-lists3 p e =
    Idle-put p sleep_place (2 ∷ 3 ∷ []) lists2 (Idle-lists2 p (ground (arith, e)))
      (ground (arith, e))

Idle-lists4 : (p : Ptr) → has p (1 ∷ 2 ∷ 3 ∷ 6 ∷ []) ≡ false → Idle lists4 p
Idle-lists4 p e =
    Idle-put p (block 5) (6 ∷ []) lists3 (Idle-lists3 p (ground (arith, e))) (ground (arith, e))

Idle-lists5 : (p : Ptr) → has p (1 ∷ 2 ∷ 3 ∷ 6 ∷ 4 ∷ []) ≡ false → Idle lists5 p
Idle-lists5 p e =
    Idle-put p (join 7) (4 ∷ []) lists4 (Idle-lists4 p (ground (arith, e))) (ground (arith, e))

-- Any PCB but those is idle.
pub Idle-lists : (p : Ptr) → has p (1 ∷ 2 ∷ 3 ∷ 6 ∷ 4 ∷ 10 ∷ []) ≡ false → Idle lists p
Idle-lists p e =
    Idle-put p (join 7) (4 ∷ 10 ∷ []) lists5 (Idle-lists5 p (ground (arith, e))) (ground (arith, e))

added :
    (l : Place) (p : Ptr) (k : Kernel) (q : Queues)
    → Rep k q
    → IsPcb p
    → Idle q p
    → Rep (entailed l p (q l) k) (put l (q l ++ p ∷ []) q)
added l p k q r v idle = (ll_entail-Rep l p k q r v idle).1

same :
    (l : Place) (p : Ptr) (k : Kernel) (q : Queues)
    → Rep k q
    → IsPcb p
    → Idle q p
    → globals (entailed l p (q l) k) ≡ globals k
same l p k q r v idle = (ll_entail-Rep l p k q r v idle).2.data_kept

module _ (current : Ptr) where
  abbrev pub state1 : Kernel
  state1 = entailed ready_place 1 [] (empty current)

  abbrev pub state2 : Kernel
  state2 = entailed sleep_place 2 [] state1

  abbrev pub state3 : Kernel
  state3 = entailed sleep_place 3 (2 ∷ []) state2

  abbrev pub state4 : Kernel
  state4 = entailed (block 5) 6 [] state3

  abbrev pub state5 : Kernel
  state5 = entailed (join 7) 4 [] state4

  abbrev pub state : Kernel
  state = entailed (join 7) 10 (4 ∷ []) state5

  Rep1 : Rep state1 lists1
  Rep1 =
      added ready_place 1 (empty current) no_lists (Rep-empty current) (omega arith) (Idle-none 1)

  Rep2 : Rep state2 lists2
  Rep2 = added sleep_place 2 state1 lists1 Rep1 (omega arith) (Idle-lists1 2 (ground arith))

  Rep3 : Rep state3 lists3
  Rep3 = added sleep_place 3 state2 lists2 Rep2 (omega arith) (Idle-lists2 3 (ground arith))

  Rep4 : Rep state4 lists4
  Rep4 = added (block 5) 6 state3 lists3 Rep3 (omega arith) (Idle-lists3 6 (ground arith))

  Rep5 : Rep state5 lists5
  Rep5 = added (join 7) 4 state4 lists4 Rep4 (omega arith) (Idle-lists4 4 (ground arith))

  pub Rep_state : Rep state lists
  Rep_state = added (join 7) 10 state5 lists5 Rep5 (omega arith) (Idle-lists5 10 (ground arith))

  -- The lists are made of links only.
  pub globals-state : globals state ≡ globals (empty current)
  globals-state =
      same (join 7) 10 state5 lists5 Rep5 (omega arith) (Idle-lists5 10 (ground arith))
      ∙ same (join 7) 4 state4 lists4 Rep4 (omega arith) (Idle-lists4 4 (ground arith))
      ∙ same (block 5) 6 state3 lists3 Rep3 (omega arith) (Idle-lists3 6 (ground arith))
      ∙ same sleep_place 3 state2 lists2 Rep2 (omega arith) (Idle-lists2 3 (ground arith))
      ∙ same sleep_place 2 state1 lists1 Rep1 (omega arith) (Idle-lists1 2 (ground arith))
      ∙ same ready_place 1 (empty current) no_lists (Rep-empty current) (omega arith) (Idle-none 1)

  pub at_current : (P : Ptr → Type 0) → P current → P state.current
  at_current P h = subst P (sym (ap (λ g. g.current) globals-state)) h

  -- What `empty` says of the current process without looking at its links holds in `state`.
  pub of_current :
      (P : Pcb → Type 0) → P (payload (fresh_pcb current)) → P (payload (state.pool state.current))
  of_current P h =
      at_current (λ c. P (payload (state.pool c)))
        (subst (λ g. P (g.pool current)) (sym globals-state) h)

  pub of_pcb : (p : Ptr) (P : Pcb → Type 0) → P (payload (fresh_pcb p)) → P (payload (state.pool p))
  of_pcb p P h = subst (λ g. P (g.pool p)) (sym globals-state) h

  pub of_sem :
      (s : Ptr) (P : Semaphore → Type 0)
      → P (fresh_sem s)
      → P (record (state.sems s) { block_list = null })
  of_sem s P h = subst (λ g. P (g.sems s)) (sym globals-state) h

-- ===== src/Traps/Turns.antt =====
-- A ready process runs after at most as many yields as there are processes before it.
use sebopesyslab.Base.{
  Bool, inl, inr, ℕ, zero, suc, ◌≡◌, refl, sym, ap, ◌∙◌, true, false, ◌||◌, ltb, List, [], ◌∷◌,
  ◌++◌, arith, Option, some, get_elem?,
}
use sebopesyslab.Kernel.{Ptr, Pcb, Kernel, ready_place, stop}
use sebopesyslab.Kernel.Run.{Run}
use sebopesyslab.Queue.Rep.{Queues, put}
use sebopesyslab.Queue.Amend.{amend, amend_self, store-amend}
use sebopesyslab.Scheduler.{is_sleeping}
use sebopesyslab.Scheduler.Laws.{do_scheduler_rotates}
use sebopesyslab.Traps.{syscall, sys_handout, serve, trap_body, irq_handle}
use sebopesyslab.Traps.Bodies.{List-cases}
use sebopesyslab.Traps.States.{WellFormed, EndsIn, switches, WellFormed-amend, WellFormed_switched}

-- `n` times, the process that runs gives up the processor.
pub data Yields : ℕ → Kernel → Kernel → Type 0 where
  done : (k : Kernel) → Yields 0 k k
  yield_then :
      (n tf : ℕ) (k m out : Kernel)
      → EndsIn (irq_handle (syscall sys_handout) tf k) m
      → Yields n m out
      → Yields (suc n) k out

pub record Yielded (x : Ptr) (xs : List Ptr) (k : Kernel) (r : Run (Unit {0})) : Type 0 where
  pub out : Kernel
  pub queues : Queues
  pub ends : EndsIn r out
  pub well : WellFormed out queues
  pub runs : out.current ≡ x
  pub waits : queues ready_place ≡ xs ++ k.current ∷ []

or_true : (b : Bool) → (b || true) ≡ true
or_true true = refl
or_true false = refl

yield-Yielded :
    (k : Kernel) (q : Queues) (tf : ℕ) (x : Ptr) (xs : List Ptr)
    → WellFormed k q
    → q ready_place ≡ x ∷ xs
    → Yielded x xs k (irq_handle (syscall sys_handout) tf k)
unfolding amend irq_handle trap_body serve
yield-Yielded k q tf x xs w e =
    let p = k.current in
    let f = λ (c : Pcb). record c { tf = tf } in
    let g = λ (c : Pcb). record c { ts = stop } in
    let m1 = amend p f k in
    let m2 = amend p g m1 in
    let w2 =
      WellFormed-amend p m1 q g (λ c. refl) (λ c. refl)
        (WellFormed-amend p k q f (λ c. refl) (λ c. refl) w) in
    let stopped : (m2.pool p).ts ≡ stop = ap (λ c. c.ts) (amend_self p g m1) in
    let s =
      do_scheduler_rotates m2 q w2.lists w2.running x (xs ++ p ∷ []) w2.idle
        (ap is_sleeping stopped) (rw stopped (or_true (ltb 2 (m2.pool p).timeslice)))
        (ap (λ l. l ++ p ∷ []) e) in
    record {
      out = s.out;
      queues = put ready_place (xs ++ p ∷ []) (put ready_place (q ready_place ++ p ∷ []) q);
      ends = switches (rw (store-amend p f k w.running, store-amend p g m1 w.running) s.ends);
      well = WellFormed_switched s;
      runs = s.runs.is_current;
      waits = refl;
    }

get_elem?-append :
    (xs ys : List Ptr) (n : ℕ) (x : Ptr) → get_elem? xs n ≡ some x → get_elem? (xs ++ ys) n ≡ some x
get_elem?-append [] ys n x h = absurd (ground (arith, h))
get_elem?-append (y ∷ xs) ys zero x h = h
get_elem?-append (y ∷ xs) ys (suc n) x h = get_elem?-append xs ys n x h

pub record Arrives (n : ℕ) (k : Kernel) (x : Ptr) : Type 0 where
  pub out : Kernel
  pub path : Yields (suc n) k out
  pub runs : out.current ≡ x

no_elem : (n : ℕ) (l : List Ptr) (x : Ptr) → l ≡ [] → get_elem? l n ≡ some x → ⊥
no_elem n [] x e h = ground (arith, h)
no_elem n (y ∷ l) x e h = ground (arith, e)

some-eq : (y x : Ptr) → ◌≡◌ {A = Option Ptr} (some y) (some x) → y ≡ x
some-eq y x h = ground (arith, h)

Arrives-from :
    (n : ℕ) (k : Kernel) (q : Queues) (tf : ℕ) (x y : Ptr) (ys : List Ptr)
    → WellFormed k q
    → q ready_place ≡ y ∷ ys
    → get_elem? (y ∷ ys) n ≡ some x
    → Arrives n k x
Arrives-from zero k q tf x y ys w e h =
    let t = yield-Yielded k q tf y ys w e in
    record {
      out = t.out;
      path = yield_then zero tf k t.out t.out t.ends (done t.out);
      runs = t.runs ∙ some-eq y x h;
    }
Arrives-from (suc n) k q tf x y ys w e h =
    let t = yield-Yielded k q tf y ys w e in
    let h' : get_elem? (t.queues ready_place) n ≡ some x =
      ap (λ l. get_elem? l n) t.waits ∙ get_elem?-append ys (k.current ∷ []) n x h in
    elim (List-cases (t.queues ready_place)) [
      | inl none_ready ↦ absurd (no_elem n (t.queues ready_place) x none_ready h')
      | inr first ↦
          let r =
            Arrives-from n t.out t.queues tf x first.0 first.1 t.well first.2
              (ap (λ l. get_elem? l n) (sym first.2) ∙ h') in
          record {
            out = r.out;
            path = yield_then (suc n) tf k t.out r.out t.ends r.path;
            runs = r.runs;
          }
    ]

-- From a well-formed state with a running process, the process with n others before it on the
-- ready list runs after n + 1 yields, each by SYS_HANDOUT of the process that runs then.
pub yields-Arrives :
    (n : ℕ) (k : Kernel) (q : Queues) (tf : ℕ) (x : Ptr)
    → WellFormed k q
    → get_elem? (q ready_place) n ≡ some x
    → Arrives n k x
yields-Arrives n k q tf x w h = elim (List-cases (q ready_place)) [
  | inl none_ready ↦ absurd (no_elem n (q ready_place) x none_ready h)
  | inr first ↦
      Arrives-from n k q tf x first.0 first.1 w first.2 (ap (λ l. get_elem? l n) (sym first.2) ∙ h)
]

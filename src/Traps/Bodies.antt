-- ===== src/Traps/Bodies.antt =====
-- The body of each trap ends in a well-formed state.
use mathlib.Core.Path.{subst}
use sebopesyslab.Base.{
  ℕ, ◌+◌, ◌*◌, ◌-◌, ◌^◌, ◌<◌, ◌≡◌, ◌≢◌, refl, sym, ap, ◌∙◌, false, ◌||◌, ◌⊎◌, inl, inr, List, [],
  ◌∷◌, ◌++◌, arith, ◌==◌, has, has-append, Bool-cases, ltb, ltb→lt, le→leb, ◌≤◌, u32, length,
  is_negative, ==→eq,
}
use sebopesyslab.Base.Search.{IsFirst, first_from-IsFirst}
use sebopesyslab.Kernel.{
  Ptr, pcb_pool_max, Pcb, Kernel, Place, ready_place, sleep_place, block, join, IsPcb, head, stop,
  sleeping,
}
use sebopesyslab.Kernel.Run.{Run, ok}
use sebopesyslab.Queue.Rep.{same_place, Queues, put, Idle, Rep}
use sebopesyslab.Queue.Chain.{Chain-length}
use sebopesyslab.Queue.Amend.{amend, store-amend, current-amend_sem}
use sebopesyslab.Scheduler.Switch.{uses}
use sebopesyslab.Timer.{do_timer}
use sebopesyslab.Timer.Round.{kept, woken, moved, slices}
use sebopesyslab.Timer.Wake.{do_timer-Ticked}
use sebopesyslab.Semaphore.{nr_sems, sem_close_kr, sem_wait_kr, sem_post_kr}
use sebopesyslab.Semaphore.Close.{released, unused, sem_close_releases, sem_close_unused}
use sebopesyslab.Semaphore.Count.{IsOpen, IsCounted, waiters}
use sebopesyslab.Semaphore.Laws.{
  sem_post_wakes, sem_post_counts, sem_wait_passes, sem_wait_blocks, sem_wait_unused,
  sem_post_unused,
}
use sebopesyslab.Process.Exit.{in_use, exit_current_wakes}
use sebopesyslab.Process.Join.{
  Numbered, join_current_blocks, join_current_unknown, join_current_ended, join_current_zero,
}
use sebopesyslab.Process.{exit_current, join_current, has_pid, find_pid}
use sebopesyslab.Traps.{sys_handout, sys_sleep, serve}
use sebopesyslab.Traps.States.{WellFormed, Back, Gone, Gone-Switched, WellFormed-amend}

has-woken : (s : Ptr → ℕ) (a : Ptr) (xs : List Ptr) → has a xs ≡ false → has a (woken s xs) ≡ false
has-woken s a [] o = refl
has-woken s a (x ∷ xs) o = ground (arith, o, has-woken s a xs)

has-kept : (s : Ptr → ℕ) (a : Ptr) (xs : List Ptr) → has a xs ≡ false → has a (kept s xs) ≡ false
has-kept s a [] o = refl
has-kept s a (x ∷ xs) o = ground (arith, o, has-kept s a xs)

-- More processes at the end of the ready list, of which none is the running one.
Idle-appended :
    (p : Ptr) (ys : List Ptr) (q q' : Queues)
    → Idle q p
    → has p ys ≡ false
    → ((l : Place) → has p (q' l) ≡ false)
    → Idle (put ready_place (q ready_place ++ ys) q') p
Idle-appended p ys q q' i o i' ready_place =
    has-append p (q ready_place) ys ∙ ground (arith, i ready_place, o)
Idle-appended p ys q q' i o i' sleep_place = i' sleep_place
Idle-appended p ys q q' i o i' (block s) = i' (block s)
Idle-appended p ys q q' i o i' (join a) = i' (join a)

Idle-put :
    (p : Ptr) (l : Place) (ys : List Ptr) (q : Queues)
    → Idle q p
    → has p ys ≡ false
    → Idle (put l ys q) p
Idle-put p l ys q i o m = elim (Bool-cases (same_place m l)) [ inl y ↦ rw y o | inr n ↦ rw n (i m) ]

pub List-cases : (l : List Ptr) → (l ≡ []) ⊎ ((y : Ptr) × (ys : List Ptr) × (l ≡ y ∷ ys))
List-cases [] = inl refl
List-cases (y ∷ ys) = inr (y, ys, refl)

module _ (k : Kernel) (q : Queues) (w : WellFormed k q) (x : Ptr) (xs : List Ptr)
    (e : q ready_place ≡ x ∷ xs) where
  pub handout-Back : Back (serve sys_handout k)
  unfolding serve
  handout-Back =
      let f = λ (c : Pcb). record c { ts = stop } in
      record {
        out = amend k.current f k;
        queues = q;
        ends = store-amend k.current f k w.running;
        well = WellFormed-amend k.current k q f (λ c. refl) (λ c. refl) w;
        front = x;
        rest = xs;
        waits = e;
      }

  pub sleep-Back : (n : ℕ) → Back (serve (sys_sleep n) k)
  unfolding serve
  sleep-Back n =
      let f = λ (c : Pcb). record c { ts = sleeping } in
      let g = λ (c : Pcb). record c { timeslice = u32 (n * 200) } in
      let m = amend k.current f k in
      record {
        out = amend k.current g m;
        queues = q;
        ends = rw (store-amend k.current f k w.running) (store-amend k.current g m w.running);
        well =
            WellFormed-amend k.current m q g (λ c. refl) (λ c. refl)
              (WellFormed-amend k.current k q f (λ c. refl) (λ c. refl) w);
        front = x;
        rest = xs;
        waits = e;
      }

  pub timer-Back : Back (do_timer k)
  timer-Back =
      let t = do_timer-Ticked k q w.lists w.running w.idle in
      let woke = woken (slices k) (q sleep_place) in
      let p = k.current in
      record {
        out = t.out;
        queues = moved (slices k) [] (q sleep_place) q;
        ends = t.ends;
        well = record {
          lists = t.lists;
          running = subst IsPcb (sym t.same_current) w.running;
          idle = subst (Idle (moved (slices k) [] (q sleep_place) q)) (sym t.same_current) (
              Idle-appended p woke q (put sleep_place (kept (slices k) (q sleep_place)) q) w.idle
                (has-woken (slices k) p (q sleep_place) (w.idle sleep_place))
                (Idle-put p sleep_place (kept (slices k) (q sleep_place)) q w.idle
                  (has-kept (slices k) p (q sleep_place) (w.idle sleep_place))));
        };
        front = x;
        rest = xs ++ woke;
        waits = ap (λ l. l ++ woke) e;
      }

  pub exit-Gone : Gone (exit_current k)
  exit-Gone =
      let ys = in_use (uses k) (q (join k.current)) in
      Gone-Switched (exit_current_wakes k q x (xs ++ ys) w.lists w.running (ap (λ l. l ++ ys) e)).0

  moved_well :
      (m : Kernel) (q' : Queues)
      → Rep m q'
      → m.current ≡ k.current
      → Idle q' k.current
      → WellFormed m q'
  moved_well m q' r h i = record {
    lists = r;
    running = subst IsPcb (sym h) w.running;
    idle = subst (Idle q') (sym h) i;
  }

  same-Back : (r : Run (Unit {0})) → r ≡ ok tt k → Back r
  same-Back r h = record {
    out = k;
    queues = q;
    ends = h;
    well = w;
    front = x;
    rest = xs;
    waits = e;
  }

  pub join-Back : (n : ℕ) → Back (join_current n k) ⊎ Gone (join_current n k)
  join-Back n = elim (Bool-cases (n == 0)) [
    | inl none ↦ inl (same-Back (join_current n k) (join_current_zero k n none))
    | inr some_pid ↦
        let i = find_pid k n in
        let s : IsFirst 0 pcb_pool_max (has_pid k n) i =
          first_from-IsFirst pcb_pool_max 0 pcb_pool_max (has_pid k n) refl in
        let pos : n ≢ 0 = ground (arith, some_pid) in
        elim (Bool-cases (ltb i pcb_pool_max)) [
          | inr none ↦
              let past : pcb_pool_max ≤ i = ground (arith, none) in
              inl (
                same-Back (join_current n k) (
                  join_current_unknown k n
                    (λ j b. s.none_before j (omega arith) (omega (arith, b, past)))))
          | inl there ↦
              let b : i < pcb_pool_max = ltb→lt i pcb_pool_max there in
              let found : Numbered k n i = record {
                in_pool = b;
                is_number = s.passes b;
                first_such = λ j c. s.none_before j (omega arith) c;
              } in
              elim (Bool-cases ((k.pool (i + 1)).used == 0)) [
                | inl ended ↦ inl (
                    same-Back (join_current n k)
                      (join_current_ended k q n i found pos (==→eq (k.pool (i + 1)).used 0 ended)))
                | inr used ↦ inr (
                    Gone-Switched (
                      join_current_blocks k q n i found pos x xs w.lists w.running w.idle
                        (ground (arith, used)) e))
              ]
        ]
  ]

  pub close-Back : (s : Ptr) → s < nr_sems → Back (sem_close_kr s k)
  close-Back s v = elim (Bool-cases ((k.sems s).used == 0)) [
    | inl closed ↦ same-Back (sem_close_kr s k) (sem_close_unused s k v closed)
    | inr open_sem ↦
        let r = (sem_close_releases s k q w.lists (v, ground (arith, open_sem))).0 in
        let ys = waiters q s in
        let same : r.out.current ≡ k.current =
          ap (λ g. g.current) r.data_kept ∙ current-amend_sem s unused k in
        record {
          out = r.out;
          queues = released s ys q;
          ends = r.ends;
          well = record {
            lists = r.lists;
            running = subst IsPcb (sym same) w.running;
            idle = subst (Idle (released s ys q)) (sym same) (
                Idle-appended k.current ys q (put (block s) [] q) w.idle (w.idle (block s))
                  (Idle-put k.current (block s) [] q w.idle refl));
          };
          front = x;
          rest = xs ++ ys;
          waits = ap (λ l. l ++ ys) e;
        }
  ]

  -- A semaphore whose count is that of free units or minus that of waiting processes.
  pub waits_Safe :
      (s : Ptr)
      → s < nr_sems
      → IsCounted (k.sems s).count (length (waiters q s))
      → Back (sem_wait_kr s k) ⊎ Gone (sem_wait_kr s k)
  waits_Safe s v c = elim (Bool-cases ((k.sems s).used == 0)) [
    | inl closed ↦ inl (same-Back (sem_wait_kr s k) (sem_wait_unused s k v closed))
    | inr open_sem ↦
        let count = (k.sems s).count in
        let used : IsOpen k s = (v, ground (arith, open_sem)) in
        elim (Bool-cases (count == 0 || is_negative count)) [
          | inr free ↦
              let m = sem_wait_passes s k q w.lists used c free in
              inl (record {
                out = m.out;
                queues = q;
                ends = m.ends;
                well = moved_well m.out q m.lists m.same_current w.idle;
                front = x;
                rest = xs;
                waits = e;
              })
          | inl taken ↦
              let few =
                Chain-length k.pool (head (block s) k) (waiters q s) (w.lists.queues (block s)) in
              let least : count ≢ 2 ^ 31 =
                λ z. omega (arith, few, z, c.waiting (le→leb (2 ^ 31) count (omega (arith, z)))) in
              inr (
                Gone-Switched
                  (sem_wait_blocks s k q w.lists used c x xs w.running w.idle taken least e).0)
        ]
  ]

  pub post-Back :
      (s : Ptr)
      → s < nr_sems
      → IsCounted (k.sems s).count (length (waiters q s))
      → (k.sems s).count ≢ 2 ^ 31 - 1
      → Back (sem_post_kr s k)
  post-Back s v c m = elim (Bool-cases ((k.sems s).used == 0)) [
    | inl closed ↦ same-Back (sem_post_kr s k) (sem_post_unused s k v closed)
    | inr open_sem ↦
        let used : IsOpen k s = (v, ground (arith, open_sem)) in
        elim (List-cases (waiters q s)) [
          | inl nobody ↦
              let r = sem_post_counts s k q w.lists used c nobody m in
              record {
                out = r.out;
                queues = q;
                ends = r.ends;
                well = moved_well r.out q r.lists r.same_current w.idle;
                front = x;
                rest = xs;
                waits = e;
              }
          | inr somebody ↦
              let y = somebody.0 in
              let ys = somebody.1 in
              let r = sem_post_wakes s k q w.lists used c y ys somebody.2 in
              let o : has k.current (y ∷ ys) ≡ false =
                subst (λ l. has k.current l ≡ false) somebody.2 (w.idle (block s)) in
              record {
                out = r.out;
                queues = put ready_place (q ready_place ++ y ∷ []) (put (block s) ys q);
                ends = r.ends;
                well =
                    moved_well r.out
                      (put ready_place (q ready_place ++ y ∷ []) (put (block s) ys q)) r.lists
                      r.same_current
                      (Idle-appended k.current (y ∷ []) q (put (block s) ys q) w.idle
                        (ground (arith, o))
                        (Idle-put k.current (block s) ys q w.idle (ground (arith, o))));
                front = x;
                rest = xs ++ y ∷ [];
                waits = ap (λ l. l ++ y ∷ []) e;
              }
        ]
  ]

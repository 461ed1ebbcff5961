-- ===== src/Semaphore/Laws.antt =====
-- What the count of a semaphore says, and what post and wait do to the lists.
use mathlib.Core.Path.{subst}
use sebopesyslab.Base.{
  ℕ, suc, ◌-◌, ◌^◌, ◌≡◌, ◌≢◌, refl, sym, ap, ◌∙◌, true, false, ◌||◌, List, [], ◌∷◌, ◌++◌, arith,
  ◌==◌, add32, sub32, is_negative, length, ◌<◌, lt→ltb, ne→==_false, length-append,
}
use sebopesyslab.Kernel.{Ptr, null, Kernel, ready_place, block, IsPcb}
use sebopesyslab.Kernel.Run.{ok, Cmd, pure, get, ◌>>=◌, ◌>>◌}
use sebopesyslab.Queue.{ll_pop, ll_entail}
use sebopesyslab.Queue.Rep.{Queues, put, Idle, Rep, ll_pop-Rep, ll_entail-Rep, put_self}
use sebopesyslab.Queue.Relinks.{globals}
use sebopesyslab.Queue.Delete.{popped}
use sebopesyslab.Queue.Entail.{entailed}
use sebopesyslab.Queue.Amend.{
  amend_sem, amend_sem_self, current-amend_sem, Rep-amend_sem, Rep_globals,
}
use sebopesyslab.Scheduler.{drop_current, do_scheduler}
use sebopesyslab.Scheduler.Laws.{Switched, Switched-eq, do_scheduler-null}
use sebopesyslab.Scheduler.Switch.{uses_of_globals, sem_count}
use sebopesyslab.Semaphore.{nr_sems, sem_post_kr, sem_wait_kr}
use sebopesyslab.Semaphore.Count.{
  IsOpen, IsCounted, IsCounted-up, IsCounted_up_free, Moved, count_down_blocks, count_down_passes,
  count_up_free, count_up_wakes, down, store_sem-amend, up, waiters,
}

module _ (s : Ptr) (k : Kernel) (q : Queues) (r : Rep k q) (used : IsOpen k s)
    (c : IsCounted (k.sems s).count (length (waiters q s))) where
  Rep-up : Rep (amend_sem s up k) q
  Rep-up = Rep-amend_sem s up r (λ d. refl)

  counted_at : (n : ℕ) → length (waiters q s) ≡ n → IsCounted (k.sems s).count n
  counted_at n e = subst (IsCounted (k.sems s).count) e c

  wake_one : Cmd (Unit {0})
  wake_one = do p ← ll_pop (block s); r ← ll_entail ready_place p; pure tt

  sem_post_front :
      (add32 (k.sems s).count 1 == 0 || is_negative (add32 (k.sems s).count 1)) ≡ true
      → sem_post_kr s k ≡ wake_one (amend_sem s up k)
  unfolding sem_post_kr wake_one
  sem_post_front e = rw (
    lt→ltb s nr_sems used.0,
    ne→==_false (k.sems s).used 0 used.1,
    store_sem-amend s up k,
    lt→ltb s nr_sems used.0,
    amend_sem_self s up k,
    e,
  )

  -- On well-formed lists, sem_post_kr of a used semaphore of sems on which processes wait, its
  -- count being minus their number, moves the first waiter to the end of the ready list and
  -- counts up; the count is again minus the number of waiters.
  pub sem_post_wakes :
      (x : Ptr) (xs : List Ptr)
      → waiters q s ≡ x ∷ xs
      → Moved s
          (add32 (k.sems s).count 1)
          k
          (put ready_place (q ready_place ++ x ∷ []) (put (block s) xs q))
          (sem_post_kr s k)
  unfolding wake_one
  sem_post_wakes x xs e =
      let u = amend_sem s up k in
      let n = popped (block s) x u in
      let (pops, r', idle, v, kept) = ll_pop-Rep (block s) x xs u q Rep-up e in
      let (adds, r'', kept') = ll_entail-Rep ready_place x n (put (block s) xs q) r' v idle in
      let h : IsCounted (k.sems s).count (suc (length xs)) = counted_at _ (ap length e) in
      let m = entailed ready_place x (put (block s) xs q ready_place) n in
      let same : globals m ≡ globals u = kept'.data_kept ∙ kept.data_kept in
      let new_count : (m.sems s).count ≡ add32 (k.sems s).count 1 =
        ap (λ g. (g.sems s).count) same ∙ ap (λ d. d.count) (amend_sem_self s up k) in
      record {
        out = m;
        ends = sem_post_front (count_up_wakes (k.sems s).count (length xs) h) ∙ (rw (pops, adds));
        lists = r'';
        counts = new_count;
        still_used = ap (λ g. (g.sems s).used) same ∙ ap (λ d. d.used) (amend_sem_self s up k);
        same_current = ap (λ g. g.current) same ∙ current-amend_sem s up k;
        counted =
            subst (λ d. IsCounted d (length (put (block s) xs q (block s)))) (sym new_count)
              (subst (λ z. IsCounted (add32 (k.sems s).count 1) (length z))
                (sym (put_self (block s) xs q)) (IsCounted-up (k.sems s).count (length xs) h));
      }

  -- On well-formed lists, sem_post_kr of a used semaphore on which nobody waits, with a count
  -- other than 2^31 - 1, counts one up and changes no list.
  pub sem_post_counts :
      waiters q s ≡ []
      → (k.sems s).count ≢ 2 ^ 31 - 1
      → Moved s (add32 (k.sems s).count 1) k q (sem_post_kr s k)
  unfolding sem_post_kr
  sem_post_counts e ne =
      let h : IsCounted (k.sems s).count 0 = counted_at 0 (ap length e) in
      record {
        out = amend_sem s up k;
        ends = rw (
          lt→ltb s nr_sems used.0,
          ne→==_false (k.sems s).used 0 used.1,
          store_sem-amend s up k,
          lt→ltb s nr_sems used.0,
          amend_sem_self s up k,
          count_up_free (k.sems s).count h ne,
        );
        lists = Rep-up;
        counts = ap (λ d. d.count) (amend_sem_self s up k);
        still_used = ap (λ d. d.used) (amend_sem_self s up k);
        same_current = current-amend_sem s up k;
        counted = rw (amend_sem_self s up k, e) (IsCounted_up_free (k.sems s).count h ne);
      }

  -- On well-formed lists, sem_wait_kr of a used semaphore with a positive count counts one
  -- down, which stays a count of free units, and changes no list.
  pub sem_wait_passes :
      ((k.sems s).count == 0 || is_negative (k.sems s).count) ≡ false
      → Moved s (sub32 (k.sems s).count 1) k q (sem_wait_kr s k)
  unfolding sem_wait_kr
  sem_wait_passes e =
      let (pos, counted') = count_down_passes (k.sems s).count (length (waiters q s)) c e in
      record {
        out = amend_sem s down k;
        ends = rw (
          lt→ltb s nr_sems used.0,
          ne→==_false (k.sems s).used 0 used.1,
          store_sem-amend s down k,
          lt→ltb s nr_sems used.0,
          amend_sem_self s down k,
          pos,
        );
        lists = Rep-amend_sem s down r (λ d. refl);
        counts = ap (λ d. d.count) (amend_sem_self s down k);
        still_used = ap (λ d. d.used) (amend_sem_self s down k);
        same_current = current-amend_sem s down k;
        counted = rw (amend_sem_self s down k) counted';
      }

  block_current : Cmd (Unit {0})
  block_current = do m ← get; n ← ll_entail (block s) m.current; drop_current; do_scheduler

  sem_wait_front :
      is_negative (sub32 (k.sems s).count 1) ≡ true
      → sem_wait_kr s k ≡ block_current (amend_sem s down k)
  unfolding sem_wait_kr block_current
  sem_wait_front e = rw (
    lt→ltb s nr_sems used.0,
    ne→==_false (k.sems s).used 0 used.1,
    store_sem-amend s down k,
    lt→ltb s nr_sems used.0,
    amend_sem_self s down k,
    e,
  )

  block_current-ok :
      {n : ℕ} {m : Kernel}
      → IsPcb k.current
      → ll_entail (block s) k.current (amend_sem s down k) ≡ ok n m
      → block_current (amend_sem s down k) ≡ do_scheduler (record m { current = null })
  unfolding block_current amend_sem
  block_current-ok v e = rw (current-amend_sem s down k, e)

  -- On well-formed lists, sem_wait_kr of a used semaphore of sems whose count is the number of
  -- free units or minus the number of waiters, is not positive and is not -2^31, puts the
  -- running process at the end of that semaphore's list, and the first ready process is
  -- switched to. The semaphore then counts one less, which again is minus the number of its
  -- waiters.
  pub sem_wait_blocks :
      (x : Ptr) (xs : List Ptr)
      → IsPcb k.current
      → Idle q k.current
      → ((k.sems s).count == 0 || is_negative (k.sems s).count) ≡ true
      → (k.sems s).count ≢ 2 ^ 31
      → q ready_place ≡ x ∷ xs
      → let q' = put (block s) (waiters q s ++ k.current ∷ []) q in
        Switched (amend_sem s down k) x xs q' (sem_wait_kr s k)
        × IsCounted (sem_count (amend_sem s down k) s) (length (waiters q' s))
  sem_wait_blocks x xs v idle e ne f =
      let (neg, counted') = count_down_blocks (k.sems s).count (length (waiters q s)) c e ne in
      let u = amend_sem s down k in
      let (ran, r', kept) =
        ll_entail-Rep (block s) k.current u q (Rep-amend_sem s down r (λ d. refl)) v idle in
      let m = entailed (block s) k.current (waiters q s) u in
      let rest =
        do_scheduler-null x xs (record m { current = null }) _
          (Rep_globals {k = m} m.pid null m.tick m.count m.cr3 m.esp0 r') refl f in
      (
        Switched-eq (sem_wait_front neg ∙ block_current-ok v ran)
            (λ t. ap (λ g. (g.sems t).count) kept.data_kept) (uses_of_globals u m kept.data_kept)
            rest,
        subst
            (λ z. IsCounted z (length (put (block s) (waiters q s ++ k.current ∷ []) q (block s))))
            (sym (ap (λ d. d.count) (amend_sem_self s down k)))
            (subst (λ z. IsCounted (sub32 (k.sems s).count 1) z)
              (sym (
                ap length (put_self (block s) (waiters q s ++ k.current ∷ []) q)
                ∙ length-append (waiters q s) (k.current ∷ [])
                ∙ omega arith))
              counted'),
      )

-- A semaphore of `sems` that is not in use.
pub sem_wait_unused :
    (s : Ptr) (k : Kernel) → s < nr_sems → ((k.sems s).used == 0) ≡ true → sem_wait_kr s k ≡ ok tt k
unfolding sem_wait_kr
sem_wait_unused s k v e = rw (lt→ltb s nr_sems v, e) refl

pub sem_post_unused :
    (s : Ptr) (k : Kernel) → s < nr_sems → ((k.sems s).used == 0) ≡ true → sem_post_kr s k ≡ ok tt k
unfolding sem_post_kr
sem_post_unused s k v e = rw (lt→ltb s nr_sems v, e) refl

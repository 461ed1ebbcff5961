-- ===== src/Semaphore/Close.antt =====
-- `sem_close_kr` wakes everybody who waits.
use mathlib.Core.List.{append_assoc, append-nil}
use sebopesyslab.Base.{
  true, ℕ, zero, suc, ◌<◌, ◌≡◌, refl, sym, ◌∙◌, List, [], ◌∷◌, ◌++◌, arith, length, lt→ltb,
  ne→==_false, Bool-cases, inl, inr, ◌==◌, ==→eq,
}
use sebopesyslab.Kernel.{
  Ptr, null, Kernel, Semaphore, Place, ready_place, sleep_place, block, join, IsPcb, head,
}
use sebopesyslab.Kernel.Run.{Run, ok}
use sebopesyslab.Queue.{walk_bound, ll_pop, ll_entail}
use mathlib.Core.Path.{subst}
use sebopesyslab.Queue.Chain.{Chain-length, IsQueue}
use sebopesyslab.Queue.Rep.{Queues, put, Rep, Rep_ext, ll_pop-Rep, ll_entail-Rep, put_self}
use sebopesyslab.Queue.Relinks.{globals}
use sebopesyslab.Queue.Delete.{popped, ll_pop-nil}
use sebopesyslab.Queue.Entail.{entailed}
use sebopesyslab.Queue.Amend.{amend_sem, amend_sem_self, Rep-amend_sem}
use sebopesyslab.Semaphore.{nr_sems, release_loop, sem_close_kr}
use sebopesyslab.Semaphore.Count.{IsOpen, waiters, store_sem-amend}

-- The lists after all who wait for `s` have become ready, in their order.
abbrev pub released : Ptr → List Ptr → Queues → Queues
released s xs q = put ready_place (q ready_place ++ xs) (put (block s) [] q)

pub record Released (s : Ptr) (k : Kernel) (xs : List Ptr) (q : Queues) (r : Run (Unit {0}))
    : Type 0 where
  pub out : Kernel
  pub ends : r ≡ ok tt out
  pub lists : Rep out (released s xs q)
  pub data_kept : globals out ≡ globals k

module _ (s : Ptr) where
  same_released :
      (x : Ptr) (xs : List Ptr) (q : Queues) (l : Place)
      → released s xs (put ready_place (q ready_place ++ x ∷ []) (put (block s) xs q)) l
        ≡ released s (x ∷ xs) q l
  same_released x xs q ready_place = append_assoc (q ready_place) (x ∷ []) xs
  same_released x xs q sleep_place = refl
  same_released x xs q (block t) = ground arith
  same_released x xs q (join p) = refl

  nothing_released : (q : Queues) → waiters q s ≡ [] → (l : Place) → q l ≡ released s [] q l
  nothing_released q e ready_place = sym (append-nil (q ready_place))
  nothing_released q e sleep_place = refl
  nothing_released q e (block t) = elim (Bool-cases (t == s)) [
    | inl y ↦ rw (y, ==→eq t s y) e
    | inr n ↦ rw n
  ]
  nothing_released q e (join p) = refl

  release_round :
      (n : ℕ) (x : Ptr) (k m : Kernel) {j : Kernel} {b : ℕ}
      → IsPcb x
      → ll_pop (block s) k ≡ ok x j
      → ll_entail ready_place x j ≡ ok b m
      → release_loop (suc n) s k ≡ release_loop n s m
  unfolding release_loop
  release_round n x k m v pops adds = rw (pops, ne→==_false x null (omega (arith, v)), adds)

  release_loop-Released :
      (n : ℕ) (xs : List Ptr) (k : Kernel) (q : Queues)
      → Rep k q
      → waiters q s ≡ xs
      → length xs < n
      → Released s k xs q (release_loop n s k)
  release_loop-Released zero xs k q r e b = absurd (omega arith)
  release_loop-Released (suc n) [] k q r e b = record {
    out = k;
    ends =
        unfold release_loop in
        (rw (ll_pop-nil (block s) k (subst (λ z. IsQueue k (block s) z) e (r.queues (block s)))));
    lists = Rep_ext (nothing_released q e) r;
    data_kept = refl;
  }
  release_loop-Released (suc n) (x ∷ xs) k q r e b =
      let (pops, r', idle, v, kept) = ll_pop-Rep (block s) x xs k q r e in
      let (adds, r'', kept') =
        ll_entail-Rep ready_place x (popped (block s) x k) (put (block s) xs q) r' v idle in
      let m = entailed ready_place x (q ready_place) (popped (block s) x k) in
      let rest =
        release_loop-Released n xs m
          (put ready_place (q ready_place ++ x ∷ []) (put (block s) xs q)) r''
          (put_self (block s) xs q) (omega arith) in
      record {
        out = rest.out;
        ends = release_round n x k m v pops adds ∙ rest.ends;
        lists = Rep_ext (same_released x xs q) rest.lists;
        data_kept = rest.data_kept ∙ kept'.data_kept ∙ kept.data_kept;
      }

abbrev pub unused : Semaphore → Semaphore
unused c = record c { used = 0 }

-- On well-formed lists, sem_close_kr of a used semaphore of sems ends: it is unused, nobody
-- waits for it, and all who waited are at the end of the ready list in their order.
pub sem_close_releases :
    (s : Ptr) (k : Kernel) (q : Queues)
    → Rep k q
    → IsOpen k s
    → Released s (amend_sem s unused k) (waiters q s) q (sem_close_kr s k)
      × ((amend_sem s unused k).sems s ≡ record (k.sems s) { used = 0 })
unfolding sem_close_kr
sem_close_releases s k q r used =
    let r' = Rep-amend_sem s unused r (λ c. refl) in
    let u = amend_sem s unused k in
    let w =
      release_loop-Released s walk_bound (waiters q s) u q r' refl (
        omega
          (arith, Chain-length u.pool (head (block s) u) (waiters q s) (r'.queues (block s)))) in
    (
      record {
        out = w.out;
        ends =
            rw
              (
                lt→ltb s nr_sems used.0,
                ne→==_false (k.sems s).used 0 used.1,
                store_sem-amend s unused k,
              )
              w.ends;
        lists = w.lists;
        data_kept = w.data_kept;
      },
      amend_sem_self s unused k,
    )

-- A semaphore of `sems` that is not in use.
pub sem_close_unused :
    (s : Ptr) (k : Kernel)
    → s < nr_sems
    → ((k.sems s).used == 0) ≡ true
    → sem_close_kr s k ≡ ok tt k
unfolding sem_close_kr
sem_close_unused s k v e = rw (lt→ltb s nr_sems v, e) refl

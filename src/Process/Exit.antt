-- ===== src/Process/Exit.antt =====
-- The end of a process: those who joined it become ready, in their order, and the first ready
-- process runs.
use mathlib.Core.List.{append_assoc, append-nil}
use mathlib.Core.Path.{subst}
use sebopesyslab.Base.{
  ℕ, zero, suc, ◌<◌, ◌≡◌, refl, sym, ap, ◌∙◌, true, false, List, [], ◌∷◌, ◌++◌, arith, length,
  if◌then◌else◌, ne→==_false, Bool-cases, inl, inr, ◌==◌, ==→eq,
}
use sebopesyslab.Kernel.{
  Ptr, null, Pcb, Kernel, Place, ready_place, sleep_place, block, join, IsPcb, head,
}
use sebopesyslab.Kernel.Run.{Run, ok}
use sebopesyslab.Queue.{walk_bound, ll_pop, ll_entail}
use sebopesyslab.Queue.Chain.{Chain-length, IsQueue, load-ok}
use sebopesyslab.Queue.Rep.{Queues, put, Rep, Rep_ext, ll_pop-Rep, ll_entail-Rep, put_self}
use sebopesyslab.Queue.Relinks.{globals}
use sebopesyslab.Queue.Delete.{popped, ll_pop-nil}
use sebopesyslab.Queue.Entail.{entailed}
use sebopesyslab.Queue.Amend.{amend, store-amend, sems-amend, amend_self, Rep-amend, Rep_globals}
use sebopesyslab.Scheduler.{do_scheduler}
use sebopesyslab.Scheduler.Laws.{Switched, Switched-eq, do_scheduler-null}
use sebopesyslab.Scheduler.Switch.{uses, uses_of_globals}
use sebopesyslab.Process.{free_pcb, wake_joiners, exit_current}

-- Those of `xs` that are still in use.
abbrev pub in_use : (Ptr → ℕ) → List Ptr → List Ptr
in_use used [] = []
in_use used (x ∷ xs) = if used x == 0 then in_use used xs else x ∷ in_use used xs

-- The lists after all who joined `p` have left its join list.
abbrev pub joined : Ptr → List Ptr → Queues → Queues
joined p xs q = put ready_place (q ready_place ++ xs) (put (join p) [] q)

pub record Joined (p : Ptr) (k : Kernel) (xs : List Ptr) (q : Queues) (r : Run (Unit {0}))
    : Type 0 where
  pub out : Kernel
  pub ends : r ≡ ok tt out
  pub lists : Rep out (joined p (in_use (uses k) xs) q)
  pub data_kept : globals out ≡ globals k

round_ends :
    (n : ℕ) (k : Kernel) {j : Kernel}
    → ll_pop (join k.current) k ≡ ok null j
    → wake_joiners (suc n) k ≡ ok tt j
unfolding wake_joiners
round_ends n k pops = rw pops

round_skips :
    (n : ℕ) (x : Ptr) (k : Kernel) {j : Kernel}
    → IsPcb x
    → ll_pop (join k.current) k ≡ ok x j
    → ((j.pool x).used == 0) ≡ true
    → wake_joiners (suc n) k ≡ wake_joiners n j
unfolding wake_joiners
round_skips n x k {j} v pops e = rw (pops, ne→==_false x null (omega (arith, v)), load-ok x j v, e)

round_wakes :
    (n : ℕ) (x : Ptr) (k : Kernel) {j m : Kernel} {b : ℕ}
    → IsPcb x
    → ll_pop (join k.current) k ≡ ok x j
    → ((j.pool x).used == 0) ≡ false
    → ll_entail ready_place x j ≡ ok b m
    → wake_joiners (suc n) k ≡ wake_joiners n m
unfolding wake_joiners
round_wakes n x k {j} v pops e adds =
    rw (pops, ne→==_false x null (omega (arith, v)), load-ok x j v, e, adds)

module _ (p : Ptr) where
  same_joined :
      (x : Ptr) (xs ys : List Ptr) (q : Queues) (l : Place)
      → joined p ys (put ready_place (q ready_place ++ x ∷ []) (put (join p) xs q)) l
        ≡ joined p (x ∷ ys) q l
  same_joined x xs ys q ready_place = append_assoc (q ready_place) (x ∷ []) ys
  same_joined x xs ys q sleep_place = refl
  same_joined x xs ys q (block t) = refl
  same_joined x xs ys q (join t) = ground arith

  same_skipped :
      (xs ys : List Ptr) (q : Queues) (l : Place)
      → joined p ys (put (join p) xs q) l ≡ joined p ys q l
  same_skipped xs ys q ready_place = refl
  same_skipped xs ys q sleep_place = refl
  same_skipped xs ys q (block t) = refl
  same_skipped xs ys q (join t) = ground arith

  nobody_joined : (q : Queues) → q (join p) ≡ [] → (l : Place) → q l ≡ joined p [] q l
  nobody_joined q e ready_place = sym (append-nil (q ready_place))
  nobody_joined q e sleep_place = refl
  nobody_joined q e (block t) = refl
  nobody_joined q e (join t) = elim (Bool-cases (t == p)) [
    | inl y ↦ rw (y, ==→eq t p y) e
    | inr n ↦ rw n
  ]

  at_current :
      (k : Kernel) {x : Ptr} {j : Kernel}
      → k.current ≡ p
      → ll_pop (join p) k ≡ ok x j
      → ll_pop (join k.current) k ≡ ok x j
  at_current k {x} {j} c e = subst (λ z. ll_pop (join z) k ≡ ok x j) (sym c) e

  wake_joiners-Joined :
      (n : ℕ) (xs : List Ptr) (k : Kernel) (q : Queues)
      → Rep k q
      → k.current ≡ p
      → q (join p) ≡ xs
      → length xs < n
      → Joined p k xs q (wake_joiners n k)
  wake_joiners-Joined zero xs k q r c e b = absurd (omega arith)
  wake_joiners-Joined (suc n) [] k q r c e b = record {
    out = k;
    ends = round_ends n k (
        at_current k c
          (ll_pop-nil (join p) k (subst (λ z. IsQueue k (join p) z) e (r.queues (join p)))));
    lists = Rep_ext (nobody_joined q e) r;
    data_kept = refl;
  }
  wake_joiners-Joined (suc n) (x ∷ xs) k q r c e b =
      let (pops, r', idle, v, kept) = ll_pop-Rep (join p) x xs k q r e in
      let j = popped (join p) x k in
      let same_use : uses j ≡ uses k = ap (λ g. uses g) kept.data_kept in
      elim (Bool-cases ((j.pool x).used == 0)) [
        | inl ended ↦
            let rest =
              wake_joiners-Joined n xs j (put (join p) xs q) r'
                (ap (λ g. g.current) kept.data_kept ∙ c) (put_self (join p) xs q) (omega arith) in
            record {
              out = rest.out;
              ends = round_skips n x k v (at_current k c pops) ended ∙ rest.ends;
              lists =
                  subst (λ u. Rep rest.out (joined p (in_use u (x ∷ xs)) q)) same_use
                    (subst
                      (λ z.
                        Rep rest.out
                          (joined p (if z then in_use (uses j) xs else x ∷ in_use (uses j) xs) q))
                      (sym ended) (Rep_ext (same_skipped xs (in_use (uses j) xs) q) rest.lists));
              data_kept = rest.data_kept ∙ kept.data_kept;
            }
        | inr waits ↦
            let (adds, r'', kept') = ll_entail-Rep ready_place x j (put (join p) xs q) r' v idle in
            let m = entailed ready_place x (q ready_place) j in
            let rest =
              wake_joiners-Joined n xs m
                (put ready_place (q ready_place ++ x ∷ []) (put (join p) xs q)) r''
                (ap (λ g. g.current) kept'.data_kept ∙ ap (λ g. g.current) kept.data_kept ∙ c)
                (put_self (join p) xs q) (omega arith) in
            record {
              out = rest.out;
              ends = round_wakes n x k v (at_current k c pops) waits adds ∙ rest.ends;
              lists =
                  subst (λ u. Rep rest.out (joined p (in_use u (x ∷ xs)) q)) same_use
                    (subst
                      (λ z.
                        Rep rest.out
                          (joined p (if z then in_use (uses j) xs else x ∷ in_use (uses j) xs) q))
                      (sym waits)
                      (subst (λ u. Rep rest.out (joined p (x ∷ in_use u xs) q))
                        (ap (λ g. uses g) kept'.data_kept)
                        (Rep_ext (same_joined x xs (in_use (uses m) xs) q) rest.lists)));
              data_kept = rest.data_kept ∙ kept'.data_kept ∙ kept.data_kept;
            }
      ]

abbrev pub unused_pcb : Pcb → Pcb
unused_pcb c = record c { used = 0 }

abbrev with_no_current : Kernel → Kernel
with_no_current k = record k { current = null }

uses_unused :
    (m k : Kernel) (p : Ptr)
    → globals m ≡ globals k
    → (a : Ptr) → uses (amend p unused_pcb m) a ≡ uses (amend p unused_pcb k) a
unfolding amend
uses_unused m k p e a = ground (arith, uses_of_globals k m e a)

exit_current-ok :
    (k : Kernel) {m : Kernel}
    → IsPcb m.current
    → wake_joiners walk_bound k ≡ ok tt m
    → exit_current k ≡ do_scheduler (with_no_current (amend m.current unused_pcb m))
unfolding exit_current free_pcb
exit_current-ok k {m} v e = rw (e, store-amend m.current unused_pcb m v)

-- On well-formed lists, with a process current and one ready or a used one that has joined it,
-- exit_current ends in a switch to the first of the ready list to which the joiners that are in
-- use are appended in order; the join list is empty and the exiting process is no longer in
-- use. The loop over the join list has fuel enough.
pub exit_current_wakes :
    (k : Kernel) (q : Queues) (x : Ptr) (xs : List Ptr)
    → Rep k q
    → IsPcb k.current
    → q ready_place ++ in_use (uses k) (q (join k.current)) ≡ x ∷ xs
    → Switched
        (amend k.current unused_pcb k)
        x
        xs
        (joined k.current (in_use (uses k) (q (join k.current))) q)
        (exit_current k)
      × (uses (amend k.current unused_pcb k) k.current ≡ 0)
exit_current_wakes k q x xs r v e =
    let p = k.current in
    let w =
      wake_joiners-Joined p walk_bound (q (join p)) k q r refl refl
        (omega (arith, Chain-length k.pool (head (join p) k) (q (join p)) (r.queues (join p)))) in
    let m = w.out in
    let here : m.current ≡ p = ap (λ g. g.current) w.data_kept in
    let f = amend p unused_pcb m in
    (
      Switched-eq
          (exit_current-ok k (subst IsPcb (sym here) v) w.ends
            ∙ ap (λ z. do_scheduler (with_no_current (amend z unused_pcb m))) here)
          (λ s.
            ap (λ f. (f s).count) (sems-amend p unused_pcb m)
            ∙ ap (λ g. (g.sems s).count) w.data_kept
            ∙ ap (λ f. (f s).count) (sym (sems-amend p unused_pcb k)))
          (uses_unused m k p w.data_kept)
          (do_scheduler-null x xs (with_no_current f) _
            (Rep_globals {k = f} f.pid null f.tick f.count f.cr3 f.esp0
              (Rep-amend p unused_pcb w.lists (λ c. refl) (λ c. refl)))
            refl e),
      ap (λ c. c.used) (amend_self p unused_pcb k),
    )

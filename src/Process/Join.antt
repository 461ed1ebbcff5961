-- ===== src/Process/Join.antt =====
-- Waiting for a process by its number.
use sebopesyslab.Base.{
  ℕ, ◌+◌, ◌<◌, ◌≡◌, ◌≢◌, refl, ap, ◌∙◌, true, false, List, [], ◌∷◌, ◌++◌, arith, ◌==◌, ne→==_false,
  eq→==, lt-cases, inl, inr, Bool-cases,
}
use sebopesyslab.Base.Search.{IsFirst, first_from-IsFirst}
use sebopesyslab.Kernel.{Ptr, null, pcb_pool_max, Kernel, ready_place, join, IsPcb}
use sebopesyslab.Kernel.Run.{ok, Cmd, ◌>>=◌, ◌>>◌}
use sebopesyslab.Queue.{ll_entail}
use sebopesyslab.Queue.Rep.{Queues, put, Idle, Rep, ll_entail-Rep}
use sebopesyslab.Queue.Entail.{entailed}
use sebopesyslab.Queue.Amend.{Rep_globals}
use sebopesyslab.Scheduler.{drop_current, do_scheduler}
use sebopesyslab.Scheduler.Laws.{Switched, Switched-eq, do_scheduler-null}
use sebopesyslab.Scheduler.Switch.{uses_of_globals}
use sebopesyslab.Process.{has_pid, find_pid, join_current}

-- The process numbered `pid` is `PCBPool[i]`, the first with that number.
pub record Numbered (k : Kernel) (pid i : ℕ) : Type 0 where
  pub in_pool : i < pcb_pool_max
  pub is_number : has_pid k pid i ≡ true
  pub first_such : (j : ℕ) → j < i → has_pid k pid j ≡ false

find_pid_lem : (k : Kernel) (pid i : ℕ) → Numbered k pid i → find_pid k pid ≡ i
find_pid_lem k pid i h =
    let r = find_pid k pid in
    let s : IsFirst 0 1000 (has_pid k pid) r =
      first_from-IsFirst 1000 0 1000 (has_pid k pid) refl in
    elim (lt-cases r i) [
      | inl before ↦ cc (h.first_such r before, s.passes (omega (arith, before, h.in_pool)))
      | inr (inl after) ↦ cc (h.is_number, s.none_before i (omega arith) after)
      | inr (inr same) ↦ same
    ]

find_pid_none :
    (k : Kernel) (pid : ℕ)
    → ((j : ℕ) → j < pcb_pool_max → has_pid k pid j ≡ false)
    → find_pid k pid ≡ pcb_pool_max
find_pid_none k pid none_such =
    let r = find_pid k pid in
    let s : IsFirst 0 1000 (has_pid k pid) r =
      first_from-IsFirst 1000 0 1000 (has_pid k pid) refl in
    elim (lt-cases r 1000) [
      | inl before ↦ cc (none_such r before, s.passes before)
      | inr (inl after) ↦ absurd (omega (arith, after, s.inside))
      | inr (inr same) ↦ same
    ]

module _ (k : Kernel) (q : Queues) (pid i : ℕ) (found : Numbered k pid i) (pos : pid ≢ 0) where
  wait_for : Ptr → Cmd (Unit {0})
  wait_for p = do r ← ll_entail (join (i + 1)) p; drop_current; do_scheduler

  join_current_front : (k.pool (i + 1)).used ≢ 0 → join_current pid k ≡ wait_for k.current k
  unfolding join_current wait_for
  join_current_front used = rw (
    ne→==_false pid 0 pos,
    find_pid_lem k pid i found,
    ne→==_false i pcb_pool_max (omega (arith, found.in_pool)),
    ne→==_false (k.pool (i + 1)).used 0 used,
  )

  wait_for-ok :
      {n : ℕ} {m : Kernel}
      → ll_entail (join (i + 1)) k.current k ≡ ok n m
      → wait_for k.current k ≡ do_scheduler (record m { current = null })
  unfolding wait_for
  wait_for-ok e = rw e

  -- On well-formed lists, join_current of a number other than 0 whose first PCB in the pool is
  -- in use puts the running process at the end of that PCB's join list, and the first ready
  -- process is switched to.
  pub join_current_blocks :
      (x : Ptr) (xs : List Ptr)
      → Rep k q
      → IsPcb k.current
      → Idle q k.current
      → (k.pool (i + 1)).used ≢ 0
      → q ready_place ≡ x ∷ xs
      → Switched k x xs
          (put (join (i + 1)) (q (join (i + 1)) ++ k.current ∷ []) q)
          (join_current pid k)
  join_current_blocks x xs r v idle used f =
      let (ran, r', kept) = ll_entail-Rep (join (i + 1)) k.current k q r v idle in
      let m = entailed (join (i + 1)) k.current (q (join (i + 1))) k in
      Switched-eq (join_current_front used ∙ wait_for-ok ran)
        (λ t. ap (λ g. (g.sems t).count) kept.data_kept) (uses_of_globals k m kept.data_kept)
        (do_scheduler-null x xs (record m { current = null }) _
          (Rep_globals {k = m} m.pid null m.tick m.count m.cr3 m.esp0 r') refl f)

  -- Joining a process that has ended goes on at once.
  pub join_current_ended : (k.pool (i + 1)).used ≡ 0 → join_current pid k ≡ ok tt k
  unfolding join_current
  join_current_ended e = rw (
    ne→==_false pid 0 pos,
    find_pid_lem k pid i found,
    ne→==_false i pcb_pool_max (omega (arith, found.in_pool)),
    eq→== (k.pool (i + 1)).used 0 e,
  )

pub join_current_zero : (k : Kernel) (pid : ℕ) → (pid == 0) ≡ true → join_current pid k ≡ ok tt k
unfolding join_current
join_current_zero k pid e = rw e refl

-- join_current of a number that no PCB of the pool has changes nothing and does not wait.
pub join_current_unknown :
    (k : Kernel) (pid : ℕ)
    → ((j : ℕ) → j < pcb_pool_max → has_pid k pid j ≡ false)
    → join_current pid k ≡ ok tt k
unfolding join_current
join_current_unknown k pid none_such = elim (Bool-cases (pid == 0)) [
  | inl zero_pid ↦ rw zero_pid
  | inr pos ↦ rw (pos, find_pid_none k pid none_such)
]

-- ===== src/Tests/Ends.antt =====
-- The theorems on semaphores and on the end of processes at the state of States.
use mathlib.Core.Path.{subst}
use sebopesyslab.Base.{
  ℕ, ◌+◌, ◌<◌, ◌≡◌, ◌≢◌, refl, sym, ◌^◌, true, false, [], ◌∷◌, arith, ◌==◌, add32, is_negative,
  minus_one, ◌||◌,
}
use sebopesyslab.Kernel.{ready_place, block, join, IsPcb}
use sebopesyslab.Kernel.Run.{ok}
use sebopesyslab.Queue.Rep.{put, Idle}
use sebopesyslab.Queue.Amend.{amend, amend_sem}
use sebopesyslab.Scheduler.Laws.{Switched}
use sebopesyslab.Scheduler.Switch.{uses, sem_count}
use sebopesyslab.Semaphore.{sem_post_kr, sem_wait_kr, sem_close_kr}
use sebopesyslab.Semaphore.Laws.{sem_post_wakes, sem_wait_blocks}
use sebopesyslab.Semaphore.Count.{IsCounted, Moved, down}
use sebopesyslab.Semaphore.Close.{Released, unused, sem_close_releases}
use sebopesyslab.Process.{join_current, exit_current}
use sebopesyslab.Process.Exit.{unused_pcb, in_use, joined, exit_current_wakes}
use sebopesyslab.Process.Join.{Numbered, join_current_blocks, join_current_ended}
use sebopesyslab.Tests.States.{
  lists, state, Rep_state, Idle-lists, globals-state, at_current, of_sem, of_pcb,
}

one_waits : IsCounted minus_one 1
one_waits = record { is_word = ground arith; waiting = λ e. refl; free = λ e. ground (arith, e) }

nobody_waits : (c : ℕ) → c < 2 ^ 31 → IsCounted c 0
nobody_waits c h = record {
  is_word = omega arith;
  waiting = λ e. ground (arith, e, h);
  free = λ e. refl;
}

sem_post_wakes_example :
    Moved 5
      (add32 (sem_count (state 9) 5) 1)
      (state 9)
      (put ready_place (1 ∷ 6 ∷ []) (put (block 5) [] lists))
      (sem_post_kr 5 (state 9))
sem_post_wakes_example =
    sem_post_wakes 5 (state 9) lists (Rep_state 9)
      (omega arith, of_sem 9 5 (λ d. d.used ≢ 0) (omega arith))
      (of_sem 9 5 (λ d. IsCounted d.count 1) one_waits) 6 [] refl

sem_wait_blocks_example :
    let q' = put (block 5) (6 ∷ (state 9).current ∷ []) lists in
    Switched (amend_sem 5 down (state 9)) 1 [] q' (sem_wait_kr 5 (state 9))
    × IsCounted (sem_count (amend_sem 5 down (state 9)) 5) 2
sem_wait_blocks_example =
    sem_wait_blocks 5 (state 9) lists (Rep_state 9)
      (omega arith, of_sem 9 5 (λ d. d.used ≢ 0) (omega arith))
      (of_sem 9 5 (λ d. IsCounted d.count 1) one_waits) 1 [] (at_current 9 IsPcb (omega arith))
      (at_current 9 (Idle lists) (Idle-lists 9 (ground arith)))
      (of_sem 9 5 (λ d. (d.count == 0 || is_negative d.count) ≡ true) refl)
      (of_sem 9 5 (λ d. d.count ≢ 2 ^ 31) (omega arith)) refl

sem_close_releases_example :
    Released 5 (amend_sem 5 unused (state 9)) (6 ∷ []) lists (sem_close_kr 5 (state 9))
    × ((amend_sem 5 unused (state 9)).sems 5 ≡ record ((state 9).sems 5) { used = 0 })
sem_close_releases_example =
    sem_close_releases 5 (state 9) lists (Rep_state 9)
      (omega arith, of_sem 9 5 (λ d. d.used ≢ 0) (omega arith))

-- Process 12 is `PCBPool[11]`, and process 4, which has ended, `PCBPool[3]`.
numbered : (i : ℕ) → i < 1000 → Numbered (state 9) (i + 1) i
numbered i b = record {
  in_pool = b;
  is_number = of_pcb 9 (i + 1) (λ c. (c.pid == i + 1) ≡ true) (ground arith);
  first_such = λ j h. of_pcb 9 (j + 1) (λ c. (c.pid == i + 1) ≡ false) (ground (arith, h));
}

join_current_blocks_example :
    Switched
      (state 9)
      1
      []
      (put (join 12) ((state 9).current ∷ []) lists)
      (join_current 12 (state 9))
join_current_blocks_example =
    join_current_blocks (state 9) lists 12 11 (numbered 11 (omega arith)) (omega arith) 1 []
      (Rep_state 9) (at_current 9 IsPcb (omega arith))
      (at_current 9 (Idle lists) (Idle-lists 9 (ground arith)))
      (of_pcb 9 12 (λ c. c.used ≢ 0) (omega arith)) refl

join_current_ended_example : join_current 4 (state 9) ≡ ok tt (state 9)
join_current_ended_example =
    join_current_ended (state 9) lists 4 3 (numbered 3 (omega arith)) (omega arith)
      (of_pcb 9 4 (λ c. c.used ≡ 0) refl)

exit_current_wakes_example :
    Switched
      (amend (state 7).current unused_pcb (state 7))
      1
      (10 ∷ [])
      (joined (state 7).current (in_use (uses (state 7)) (lists (join (state 7).current))) lists)
      (exit_current (state 7))
    × (uses (amend (state 7).current unused_pcb (state 7)) (state 7).current ≡ 0)
exit_current_wakes_example =
    exit_current_wakes (state 7) lists 1 (10 ∷ []) (Rep_state 7) (at_current 7 IsPcb (omega arith))
      (at_current 7 (λ c. 1 ∷ in_use (uses (state 7)) (lists (join c)) ≡ 1 ∷ 10 ∷ [])
        (subst (λ g. 1 ∷ in_use (uses g) (4 ∷ 10 ∷ []) ≡ 1 ∷ 10 ∷ []) (sym (globals-state 7)) refl))

-- ===== src/Tests/Lists.antt =====
-- The theorems on the lists, the scheduler and the timer at the state of States.
use sebopesyslab.Base.{◌≡◌, refl, ap, true, false, [], ◌∷◌, arith, ltb, ◌||◌}
use sebopesyslab.Kernel.{null, ready_place, sleep_place, IsPcb}
use sebopesyslab.Kernel.Run.{ok}
use sebopesyslab.Queue.{ll_delete, ll_entail}
use sebopesyslab.Queue.Rep.{put, Idle, Rep, ll_entail-Rep, ll_delete-Rep}
use sebopesyslab.Queue.Relinks.{Relinks}
use sebopesyslab.Queue.Entail.{entailed}
use sebopesyslab.Queue.Unlink.{deleted}
use sebopesyslab.Scheduler.{is_sleeping, is_stop, do_scheduler}
use sebopesyslab.Scheduler.Laws.{
  Switched, do_scheduler-null, do_scheduler_sleeps, do_scheduler_rotates,
}
use sebopesyslab.Timer.{do_timer}
use sebopesyslab.Timer.Wake.{Ticked, do_timer-Ticked}
use sebopesyslab.Tests.States.{
  lists, state, Rep_state, Idle-lists, globals-state, at_current, of_current,
}

ll_entail-Rep_example :
    (ll_entail sleep_place 9 (state 9) ≡ ok 1 (entailed sleep_place 9 (2 ∷ 3 ∷ []) (state 9)))
    × Rep (entailed sleep_place 9 (2 ∷ 3 ∷ []) (state 9)) (put sleep_place (2 ∷ 3 ∷ 9 ∷ []) lists)
    × Relinks sleep_place (9 ∷ 2 ∷ 3 ∷ []) (state 9) (entailed sleep_place 9 (2 ∷ 3 ∷ []) (state 9))
ll_entail-Rep_example =
    ll_entail-Rep sleep_place 9 (state 9) lists (Rep_state 9) (omega arith)
      (Idle-lists 9 (ground arith))

ll_delete-Rep_example :
    (ll_delete sleep_place 3 (state 9) ≡ ok 1 (deleted sleep_place 3 (2 ∷ 3 ∷ []) (state 9)))
    × Rep (deleted sleep_place 3 (2 ∷ 3 ∷ []) (state 9)) (put sleep_place (2 ∷ []) lists)
    × Relinks sleep_place (2 ∷ 3 ∷ []) (state 9) (deleted sleep_place 3 (2 ∷ 3 ∷ []) (state 9))
ll_delete-Rep_example = ll_delete-Rep sleep_place 3 (state 9) lists (Rep_state 9)

do_scheduler-null_example : Switched (state null) 1 [] lists (do_scheduler (state null))
do_scheduler-null_example = do_scheduler-null 1 [] (state null) lists (Rep_state null) here refl
  where
    here : (state null).current ≡ null
    here = ap (λ g. g.current) (globals-state null)

do_scheduler_sleeps_example :
    Switched
      (state 8)
      1
      []
      (put sleep_place (2 ∷ 3 ∷ (state 8).current ∷ []) lists)
      (do_scheduler (state 8))
do_scheduler_sleeps_example =
    do_scheduler_sleeps (state 8) lists (Rep_state 8) (at_current 8 IsPcb (omega arith)) 1 []
      (at_current 8 (Idle lists) (Idle-lists 8 (ground arith)))
      (of_current 8 (λ c. is_sleeping c.ts ≡ true) refl) refl

do_scheduler_rotates_example :
    Switched
      (state 9)
      1
      (9 ∷ [])
      (put ready_place (1 ∷ (state 9).current ∷ []) lists)
      (do_scheduler (state 9))
do_scheduler_rotates_example =
    do_scheduler_rotates (state 9) lists (Rep_state 9) (at_current 9 IsPcb (omega arith)) 1 (9 ∷ [])
      (at_current 9 (Idle lists) (Idle-lists 9 (ground arith)))
      (of_current 9 (λ c. is_sleeping c.ts ≡ false) refl)
      (of_current 9 (λ c. (ltb 2 c.timeslice || is_stop c.ts) ≡ true) refl)
      (at_current 9 (λ c. 1 ∷ c ∷ [] ≡ 1 ∷ 9 ∷ []) refl)

do_timer-Ticked_example : Ticked (state 9) lists (do_timer (state 9))
do_timer-Ticked_example =
    do_timer-Ticked (state 9) lists (Rep_state 9) (at_current 9 IsPcb (omega arith))
      (at_current 9 (Idle lists) (Idle-lists 9 (ground arith)))

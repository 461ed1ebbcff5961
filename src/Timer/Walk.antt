-- ===== src/Timer/Walk.antt =====
-- The walk over the sleep list: each process loses a tick of its time; those without time
-- left go to the end of the ready list, in order, and the others stay.
use mathlib.Core.List.{append_assoc, append-nil}
use sebopesyslab.Base.{
  ℕ, zero, suc, ◌<◌, ◌≡◌, refl, sym, ap, ◌∙◌, false, List, [], ◌∷◌, ◌++◌, arith, ◌==◌, erase,
  length, Bool-cases, inl, inr,
}
use sebopesyslab.Kernel.{Ptr, Kernel, Place, ready_place, sleep_place, block, join}
use sebopesyslab.Queue.Chain.{first, Inside}
use sebopesyslab.Queue.Rep.{Queues, put, Rep, Rep_ext}
use sebopesyslab.Queue.Amend.{amend, amend_self, amend_other, current-amend, tick-amend, Rep-amend}
use sebopesyslab.Timer.{wake_loop}
use sebopesyslab.Timer.Round.{
  inside, Woken, Woken-cons, appended, current-roused, erased, moved, moved_goes, moved_stays,
  rouse_runs, roused, sleeps_on, slices, slices-roused_other, slices-roused_self, taken,
  tick-roused, tick_slice, wake_stays,
}

pub wake_loop-Woken :
    (n : ℕ) (pre rest : List Ptr) (k : Kernel) (q : Queues)
    → Rep k q
    → q sleep_place ≡ pre ++ rest
    → length rest < n
    → Woken k q pre rest (wake_loop n (first rest) k)
wake_loop-Woken zero pre rest k q r e b = absurd (omega arith)
wake_loop-Woken (suc n) pre [] k q r e b = record {
  out = k;
  ends = unfold wake_loop in refl;
  lists = Rep_ext same r;
  ticked = λ a h. cc;
  others = λ a h. refl;
  same_current = refl;
  same_tick = refl;
}
  where
    same : (l : Place) → q l ≡ moved (slices k) pre [] q l
    same ready_place = sym (append-nil (q ready_place))
    same sleep_place = e
    same (block s) = refl
    same (join p) = refl
wake_loop-Woken (suc n) pre (x ∷ xs) k q r e b = elim (Bool-cases (sleeps_on (slices k x))) [
  | inl y ↦
      let k' = amend x tick_slice k in
      let others = λ (a : Ptr) (ne : (a == x) ≡ false).
        ap (λ c. c.timeslice) (amend_other x tick_slice k a ne) in
      Woken-cons x pre xs k k' q here.not_behind others
        (wake_stays n x k here.is_pcb y ∙ ap (λ z. wake_loop n z k') here.follows)
        (ap (λ c. c.timeslice) (amend_self x tick_slice k)) (current-amend x tick_slice k)
        (tick-amend x tick_slice k) (moved_stays x pre xs k k' q here.not_behind others y)
        (wake_loop-Woken n (pre ++ x ∷ []) xs k' q
          (Rep-amend x tick_slice r (λ c. refl) (λ c. refl))
          (e ∙ sym (append_assoc pre (x ∷ []) xs)) (omega arith))
  | inr o ↦
      let k' = roused x q k in
      let others = slices-roused_other n x pre xs k q r e in
      Woken-cons x pre xs k k' q here.not_behind others
        (rouse_runs n x pre xs k q r e o ∙ ap (λ z. wake_loop n z k') here.follows)
        (slices-roused_self n x pre xs k q r e) (current-roused n x pre xs k q r e)
        (tick-roused n x pre xs k q r e)
        (moved_goes x pre xs k k' q here.not_behind others o (erase x (q sleep_place)))
        (wake_loop-Woken n pre xs k'
          (put ready_place (q ready_place ++ x ∷ []) (put sleep_place (erase x (q sleep_place)) q))
          (unfold taken in (appended n x pre xs k q r e).1) (erased n x pre xs k q r e)
          (omega arith))
]
  where
    here : Inside k.pool x pre xs
    here = inside n x pre xs k q r e

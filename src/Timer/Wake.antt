-- ===== src/Timer/Wake.antt =====
-- What a tick does to the sleeping processes: each loses a tick of its time; those without time
-- left go to the end of the ready list, in order, and the others stay.
use sebopesyslab.Base.{
  ◌+◌, ◌≡◌, refl, ap, ◌∙◌, true, false, [], ◌++◌, arith, ◌==◌, sub32, add32, u32, has, Bool-cases,
  inl, inr,
}
use sebopesyslab.Kernel.{
  Ptr, Pcb, Kernel, Place, ready_place, sleep_place, block, join, IsPcb, head,
}
use sebopesyslab.Kernel.Run.{Run, ok}
use sebopesyslab.Queue.{walk_bound}
use sebopesyslab.Queue.Chain.{first, Chain-length, first_of_Chain}
use sebopesyslab.Queue.Rep.{Queues, Idle, Rep, Rep_ext}
use sebopesyslab.Queue.Amend.{
  amend, store-amend, amend_self, amend_other, current-amend, tick-amend, Rep-amend, Rep_globals,
}
use sebopesyslab.Timer.{wake_loop, do_timer}
use sebopesyslab.Timer.Round.{Woken, kept_ext, moved, slices, woken_ext}
use sebopesyslab.Timer.Walk.{wake_loop-Woken}

-- What a tick leaves of `k` with the lists `q`.
pub record Ticked (k : Kernel) (q : Queues) (r : Run (Unit {0})) : Type 0 where
  pub out : Kernel
  pub ends : r ≡ ok tt out
  pub lists : Rep out (moved (slices k) [] (q sleep_place) q)
  pub sleepers : (a : Ptr) → has a (q sleep_place) ≡ true → slices out a ≡ sub32 (slices k a) 1
  pub runner : slices out k.current ≡ add32 (slices k k.current) 1
  pub others :
      (a : Ptr)
      → has a (q sleep_place) ≡ false
      → (a == k.current) ≡ false
      → slices out a ≡ slices k a
  pub same_current : out.current ≡ k.current
  pub counts : out.tick ≡ u32 (k.tick + 1)

abbrev grow_slice : Pcb → Pcb
grow_slice c = record c { timeslice = add32 c.timeslice 1 }

module _ (k : Kernel) (q : Queues) (r : Rep k q) (v : IsPcb k.current)
    (idle : Idle q k.current) where
  begun : Kernel
  begun = amend k.current grow_slice (record k { tick = u32 (k.tick + 1) })

  Rep-begun : Rep begun q
  unfolding begun
  Rep-begun =
      Rep-amend k.current grow_slice
        (Rep_globals k.pid k.current (u32 (k.tick + 1)) k.count k.cr3 k.esp0 r) (λ c. refl)
        (λ c. refl)

  slices-begun : (a : Ptr) → (a == k.current) ≡ false → slices begun a ≡ slices k a
  unfolding begun
  slices-begun a ne =
      ap (λ c. c.timeslice)
        (amend_other k.current grow_slice (record k { tick = u32 (k.tick + 1) }) a ne)

  not_runner : (a : Ptr) → has a (q sleep_place) ≡ true → (a == k.current) ≡ false
  not_runner a h = elim (Bool-cases (a == k.current)) [
    | inl y ↦ ground (arith, idle sleep_place, h)
    | inr n ↦ n
  ]

  same_sleepers : (a : Ptr) → has a (q sleep_place) ≡ true → slices begun a ≡ slices k a
  same_sleepers a h = slices-begun a (not_runner a h)

  same_moved :
      (l : Place)
      → moved (slices begun) [] (q sleep_place) q l ≡ moved (slices k) [] (q sleep_place) q l
  same_moved ready_place =
      ap (λ z. q ready_place ++ z) (woken_ext _ _ (q sleep_place) same_sleepers)
  same_moved sleep_place = kept_ext _ _ (q sleep_place) same_sleepers
  same_moved (block s) = refl
  same_moved (join p) = refl

  Woken-rounds :
      Woken begun q [] (q sleep_place) (wake_loop walk_bound (first (q sleep_place)) begun)
  Woken-rounds = wake_loop-Woken walk_bound [] (q sleep_place) begun q Rep-begun refl (
      omega (
        arith,
        Chain-length begun.pool (head sleep_place begun) (q sleep_place)
            (Rep-begun.queues sleep_place),
      ))

  do_timer-begun : do_timer k ≡ wake_loop walk_bound (first (q sleep_place)) begun
  unfolding do_timer begun
  do_timer-begun = rw (store-amend k.current grow_slice (record k { tick = u32 (k.tick + 1) }) v) (
      ap (λ z. wake_loop walk_bound z begun)
        (first_of_Chain begun.pool (head sleep_place begun) (q sleep_place)
          (Rep-begun.queues sleep_place)))

  current-begun : begun.current ≡ k.current
  unfolding begun
  current-begun = current-amend k.current grow_slice (record k { tick = u32 (k.tick + 1) })

  tick-begun : begun.tick ≡ u32 (k.tick + 1)
  unfolding begun
  tick-begun = tick-amend k.current grow_slice (record k { tick = u32 (k.tick + 1) })

  runner-begun : slices begun k.current ≡ add32 (slices k k.current) 1
  unfolding begun
  runner-begun =
      ap (λ c. c.timeslice) (amend_self k.current grow_slice (record k { tick = u32 (k.tick + 1) }))

  -- On well-formed lists with an idle current PCB, do_timer ends; each sleeper loses one tick
  -- (modulo 2^32), those at zero go to the end of the ready list in their order, the others
  -- sleep on in theirs, the running process gains a tick, and every other timeslice stays.
  pub do_timer-Ticked : Ticked k q (do_timer k)
  do_timer-Ticked = record {
    out = Woken-rounds.out;
    ends = do_timer-begun ∙ Woken-rounds.ends;
    lists = Rep_ext same_moved Woken-rounds.lists;
    sleepers = λ a h. Woken-rounds.ticked a h ∙ ap (λ t. sub32 t 1) (same_sleepers a h);
    runner = Woken-rounds.others k.current (idle sleep_place) ∙ runner-begun;
    others = λ a h ne. Woken-rounds.others a h ∙ slices-begun a ne;
    same_current = Woken-rounds.same_current ∙ current-begun;
    counts = Woken-rounds.same_tick ∙ tick-begun;
  }

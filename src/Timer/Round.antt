-- ===== src/Timer/Round.antt =====
-- One round of the walk over the sleeping processes: a process sleeps on, or becomes ready.
use mathlib.Core.List.{append_assoc}
use mathlib.Core.Path.{subst}
use sebopesyslab.Base.{
  ℕ, suc, ◌≡◌, refl, ap, ◌∙◌, Bool, true, false, List, [], ◌∷◌, ◌++◌, arith, ◌==◌, ltb,
  if◌then◌else◌, sub32, has, erase, Bool-cases, inl, inr, ne→==_false, ==→eq, erase-append_cons,
  has-append,
}
use sebopesyslab.Kernel.{
  Ptr, null, ready, Pcb, Kernel, Place, ready_place, sleep_place, block, join, IsPcb, head,
}
use sebopesyslab.Kernel.Run.{Run, ok}
use sebopesyslab.Queue.{ll_delete, ll_entail}
use sebopesyslab.Queue.Chain.{load-ok, Inside, Chain-Inside, IsQueue}
use sebopesyslab.Queue.Rep.{
  Queues, put, Idle, Rep, same_place, only_here, ne_of_same_place, ll_delete-Rep, ll_entail-Rep,
  Rep_ext,
}
use sebopesyslab.Queue.Relinks.{Relinks, globals}
use sebopesyslab.Queue.Unlink.{deleted, was_there}
use sebopesyslab.Queue.Entail.{entailed, was_filled}
use sebopesyslab.Queue.Amend.{
  amend, store-amend, amend_self, amend_other, current-amend, tick-amend, Rep-amend,
}
use sebopesyslab.Timer.{wake_loop}

-- A process with `t` ticks left sleeps on after this tick.
abbrev pub sleeps_on : ℕ → Bool
sleeps_on t = ltb 0 (sub32 t 1)

abbrev pub kept : (Ptr → ℕ) → List Ptr → List Ptr
kept slice [] = []
kept slice (x ∷ xs) = if sleeps_on (slice x) then x ∷ kept slice xs else kept slice xs

abbrev pub woken : (Ptr → ℕ) → List Ptr → List Ptr
woken slice [] = []
woken slice (x ∷ xs) = if sleeps_on (slice x) then woken slice xs else x ∷ woken slice xs

abbrev pub slices : Kernel → Ptr → ℕ
slices k a = (k.pool a).timeslice

pub kept_ext :
    (s t : Ptr → ℕ) (xs : List Ptr)
    → ((a : Ptr) → has a xs ≡ true → s a ≡ t a)
    → kept s xs ≡ kept t xs
kept_ext s t [] e = refl
kept_ext s t (x ∷ xs) e = rw (e x (ground arith), kept_ext s t xs (λ a h. e a (ground (arith, h))))

pub woken_ext :
    (s t : Ptr → ℕ) (xs : List Ptr)
    → ((a : Ptr) → has a xs ≡ true → s a ≡ t a)
    → woken s xs ≡ woken t xs
woken_ext s t [] e = refl
woken_ext s t (x ∷ xs) e =
    rw (e x (ground arith), woken_ext s t xs (λ a h. e a (ground (arith, h))))

abbrev pub tick_slice : Pcb → Pcb
tick_slice c = record c { timeslice = sub32 c.timeslice 1 }

abbrev mark_ready : Pcb → Pcb
mark_ready c = record c { ts = ready }

-- The lists after the walk over `rest`, behind those PCBs `pre` that stay asleep.
abbrev pub moved : (Ptr → ℕ) → (pre rest : List Ptr) → Queues → Queues
moved slice pre rest q =
    put ready_place (q ready_place ++ woken slice rest) (put sleep_place (pre ++ kept slice rest) q)

pub record Woken (k : Kernel) (q : Queues) (pre rest : List Ptr) (r : Run (Unit {0})) : Type 0 where
  pub out : Kernel
  pub ends : r ≡ ok tt out
  pub lists : Rep out (moved (slices k) pre rest q)
  pub ticked : (a : Ptr) → has a rest ≡ true → slices out a ≡ sub32 (slices k a) 1
  pub others : (a : Ptr) → has a rest ≡ false → slices out a ≡ slices k a
  pub same_current : out.current ≡ k.current
  pub same_tick : out.tick ≡ k.tick

-- One round, at a process that sleeps on.
pub wake_stays :
    (n : ℕ) (x : Ptr) (k : Kernel)
    → IsPcb x
    → sleeps_on (slices k x) ≡ true
    → wake_loop (suc n) x k ≡ wake_loop n (k.pool x).next (amend x tick_slice k)
unfolding wake_loop
wake_stays n x k v e = rw (
  ne→==_false x null (omega (arith, v)),
  store-amend x tick_slice k v,
  load-ok x (amend x tick_slice k) v,
  amend_self x tick_slice k,
  e,
)

-- The state after a round that wakes `x`.
abbrev pub roused : Ptr → Queues → Kernel → Kernel
roused x q k =
    entailed ready_place x (q ready_place)
      (deleted sleep_place x (q sleep_place) (amend x mark_ready (amend x tick_slice k)))

slices_of_globals : (k k' : Kernel) → globals k' ≡ globals k → (a : Ptr) → slices k' a ≡ slices k a
slices_of_globals k k' e a = ap (λ g. (g.pool a).timeslice) e

module _ (n : ℕ) (x : Ptr) (pre xs : List Ptr) (k : Kernel) (q : Queues) (r : Rep k q)
    (e : q sleep_place ≡ pre ++ x ∷ xs) where
  pub inside : Inside k.pool x pre xs
  inside =
      Chain-Inside k.pool (head sleep_place k) x pre xs
        (subst (λ z. IsQueue k sleep_place z) e (r.queues sleep_place))

  amended : Rep (amend x mark_ready (amend x tick_slice k)) q
  amended =
      Rep-amend x mark_ready (Rep-amend x tick_slice r (λ c. refl) (λ c. refl)) (λ c. refl)
        (λ c. refl)

  unfoldable pub taken : Queues
  taken = put sleep_place (erase x (q sleep_place)) q

  pub erased : erase x (q sleep_place) ≡ pre ++ xs
  erased = ap (erase x) e ∙ erase-append_cons x pre xs inside.not_before

  taken-Idle : Idle taken x
  unfolding taken
  taken-Idle m = elim (Bool-cases (same_place m sleep_place)) [
    | inl y ↦ rw (y, erased, has-append x pre xs, inside.not_before) inside.not_behind
    | inr o ↦ rw o (
        only_here sleep_place r x m (ne_of_same_place m sleep_place o)
          (rw (e, has-append x pre (x ∷ xs)) (ground (arith, inside.not_before))))
  ]

  removed :
      (ll_delete sleep_place x (amend x mark_ready (amend x tick_slice k))
        ≡ ok
            (was_there x (q sleep_place))
            (deleted sleep_place x (q sleep_place) (amend x mark_ready (amend x tick_slice k))))
      × Rep
          (deleted sleep_place x (q sleep_place) (amend x mark_ready (amend x tick_slice k)))
          taken
      × Relinks sleep_place
          (q sleep_place)
          (amend x mark_ready (amend x tick_slice k))
          (deleted sleep_place x (q sleep_place) (amend x mark_ready (amend x tick_slice k)))
  unfolding taken
  removed = ll_delete-Rep sleep_place x (amend x mark_ready (amend x tick_slice k)) q amended

  pub appended :
      (ll_entail ready_place x
          (deleted sleep_place x (q sleep_place) (amend x mark_ready (amend x tick_slice k)))
        ≡ ok (was_filled (q ready_place)) (roused x q k))
      × Rep (roused x q k) (put ready_place (q ready_place ++ x ∷ []) taken)
      × Relinks ready_place
          (x ∷ q ready_place)
          (deleted sleep_place x (q sleep_place) (amend x mark_ready (amend x tick_slice k)))
          (roused x q k)
  unfolding taken
  appended =
      ll_entail-Rep ready_place x
        (deleted sleep_place x (q sleep_place) (amend x mark_ready (amend x tick_slice k))) taken
        removed.1 inside.is_pcb taken-Idle

  pub rouse_runs :
      sleeps_on (slices k x) ≡ false
      → wake_loop (suc n) x k ≡ wake_loop n (k.pool x).next (roused x q k)
  unfolding wake_loop
  rouse_runs o =
      let v = inside.is_pcb in
      rw (
        ne→==_false x null (omega (arith, v)),
        store-amend x tick_slice k v,
        load-ok x (amend x tick_slice k) v,
        amend_self x tick_slice k,
        o,
        store-amend x mark_ready (amend x tick_slice k) v,
        removed.0,
        appended.0,
      )

  globals-roused : globals (roused x q k) ≡ globals (amend x mark_ready (amend x tick_slice k))
  globals-roused = appended.2.data_kept ∙ removed.2.data_kept

  pub slices-roused_self : slices (roused x q k) x ≡ sub32 (slices k x) 1
  slices-roused_self =
      slices_of_globals (amend x mark_ready (amend x tick_slice k)) (roused x q k) globals-roused x
      ∙ ap (λ c. c.timeslice) (amend_self x mark_ready (amend x tick_slice k))
      ∙ ap (λ c. c.timeslice) (amend_self x tick_slice k)

  pub slices-roused_other : (a : Ptr) → (a == x) ≡ false → slices (roused x q k) a ≡ slices k a
  slices-roused_other a ne =
      slices_of_globals (amend x mark_ready (amend x tick_slice k)) (roused x q k) globals-roused a
      ∙ ap (λ c. c.timeslice) (amend_other x mark_ready (amend x tick_slice k) a ne)
      ∙ ap (λ c. c.timeslice) (amend_other x tick_slice k a ne)

  pub current-roused : (roused x q k).current ≡ k.current
  current-roused =
      ap (λ g. g.current) globals-roused
      ∙ current-amend x mark_ready (amend x tick_slice k)
      ∙ current-amend x tick_slice k

  pub tick-roused : (roused x q k).tick ≡ k.tick
  tick-roused =
      ap (λ g. g.tick) globals-roused
      ∙ tick-amend x mark_ready (amend x tick_slice k)
      ∙ tick-amend x tick_slice k

module _ (x : Ptr) (pre xs : List Ptr) (k k' : Kernel) (q : Queues) (out : has x xs ≡ false)
    (others : (a : Ptr) → (a == x) ≡ false → slices k' a ≡ slices k a) where
  apart_from : (a : Ptr) → has a xs ≡ true → (a == x) ≡ false
  apart_from a h = elim (Bool-cases (a == x)) [ inl y ↦ ground (arith, out, h) | inr n ↦ n ]

  kept_same : kept (slices k') xs ≡ kept (slices k) xs
  kept_same = kept_ext (slices k') (slices k) xs (λ a h. others a (apart_from a h))

  woken_same : woken (slices k') xs ≡ woken (slices k) xs
  woken_same = woken_ext (slices k') (slices k) xs (λ a h. others a (apart_from a h))

  pub moved_stays :
      sleeps_on (slices k x) ≡ true
      → (l : Place) → moved (slices k') (pre ++ x ∷ []) xs q l ≡ moved (slices k) pre (x ∷ xs) q l
  moved_stays y ready_place = rw (y, woken_same)
  moved_stays y sleep_place = rw (y, kept_same, append_assoc)
  moved_stays y (block s) = refl
  moved_stays y (join p) = refl

  pub moved_goes :
      sleeps_on (slices k x) ≡ false
      → (ys : List Ptr) (l : Place)
      → moved
          (slices k')
          pre
          xs
          (put ready_place (q ready_place ++ x ∷ []) (put sleep_place ys q))
          l
        ≡ moved (slices k) pre (x ∷ xs) q l
  moved_goes o ys ready_place = rw (o, woken_same, append_assoc)
  moved_goes o ys sleep_place = rw (o, kept_same)
  moved_goes o ys (block s) = refl
  moved_goes o ys (join p) = refl

  -- The rounds for `xs` behind the round for `x`.
  pub Woken-cons :
      {q' : Queues} {pre' : List Ptr} {r r' : Run (Unit {0})}
      → r ≡ r'
      → slices k' x ≡ sub32 (slices k x) 1
      → k'.current ≡ k.current
      → k'.tick ≡ k.tick
      → ((l : Place) → moved (slices k') pre' xs q' l ≡ moved (slices k) pre (x ∷ xs) q l)
      → Woken k' q' pre' xs r'
      → Woken k q pre (x ∷ xs) r
  Woken-cons e self cur tk same w = record {
    out = w.out;
    ends = e ∙ w.ends;
    lists = Rep_ext same w.lists;
    ticked = ticked';
    others = λ a h. w.others a (ground (arith, h)) ∙ others a (ground (arith, h));
    same_current = w.same_current ∙ cur;
    same_tick = w.same_tick ∙ tk;
  }
    where
      ticked' : (a : Ptr) → has a (x ∷ xs) ≡ true → slices w.out a ≡ sub32 (slices k a) 1
      ticked' a h = elim (Bool-cases (a == x)) [
        | inl y ↦ rw (==→eq a x y) (w.others x out ∙ self)
        | inr n ↦
            let h' : has a xs ≡ true = ground (arith, h, n) in
            w.ticked a h' ∙ ap (λ t. sub32 t 1) (others a n)
      ]

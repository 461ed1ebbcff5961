-- ===== src/Semaphore/Count.antt =====
-- What the count of a semaphore says, counted up and down.
use sebopesyslab.Base.{
  ℕ, suc, ◌+◌, ◌-◌, ◌^◌, ◌<◌, ◌≡◌, ◌≢◌, refl, true, false, ◌||◌, List, arith, ◌==◌, add32, sub32,
  is_negative, length,
}
use sebopesyslab.Kernel.{Ptr, Kernel, Semaphore, block}
use sebopesyslab.Kernel.Run.{Run, ok}
use sebopesyslab.Queue.Rep.{Queues, Rep}
use sebopesyslab.Queue.Amend.{amend_sem}
use sebopesyslab.Semaphore.{nr_sems, store_sem}

-- The count of a semaphore on which `n` processes wait: a negative count is minus their number, and
-- with a count of at least 0 none waits.
pub record IsCounted (count : ℕ) (n : ℕ) : Type 0 where
  pub is_word : count < 2 ^ 32
  pub waiting : is_negative count ≡ true → count + n ≡ 2 ^ 32
  pub free : is_negative count ≡ false → n ≡ 0

abbrev pub up : Semaphore → Semaphore
up c = record c { count = add32 c.count 1 }

abbrev pub down : Semaphore → Semaphore
down c = record c { count = sub32 c.count 1 }

abbrev pub waiters : Queues → Ptr → List Ptr
waiters q s = q (block s)

-- A semaphore of `sems` that is in use
abbrev pub IsOpen : Kernel → Ptr → Type 0
IsOpen k s = (s < nr_sems) × ((k.sems s).used ≢ 0)

-- A run that ends with the lists `q'`, and with the count of `s` moved to `n`.
pub record Moved (s : Ptr) (n : ℕ) (k : Kernel) (q' : Queues) (r : Run (Unit {0})) : Type 0 where
  pub out : Kernel
  pub ends : r ≡ ok tt out
  pub lists : Rep out q'
  pub counts : (out.sems s).count ≡ n
  pub still_used : (out.sems s).used ≡ (k.sems s).used
  pub same_current : out.current ≡ k.current
  pub counted : IsCounted (out.sems s).count (length (waiters q' s))

pub store_sem-amend :
    (s : Ptr) (f : Semaphore → Semaphore) (k : Kernel) → store_sem s f k ≡ ok tt (amend_sem s f k)
unfolding store_sem amend_sem
store_sem-amend s f k = refl

pub count_up_wakes :
    (c : ℕ) (m : ℕ) → IsCounted c (suc m) → (add32 c 1 == 0 || is_negative (add32 c 1)) ≡ true
count_up_wakes c m h = ground (arith, h.waiting, h.free, h.is_word)

pub IsCounted-up : (c : ℕ) (m : ℕ) → IsCounted c (suc m) → IsCounted (add32 c 1) m
IsCounted-up c m h = record {
  is_word = ground arith;
  waiting = λ e. ground (arith, h.waiting, h.free, h.is_word);
  free = λ e. ground (arith, h.waiting, h.free, h.is_word);
}

pub count_up_free :
    (c : ℕ) → IsCounted c 0 → c ≢ 2 ^ 31 - 1 → (add32 c 1 == 0 || is_negative (add32 c 1)) ≡ false
count_up_free c h ne = ground (arith, h.waiting, h.is_word)

pub IsCounted_up_free : (c : ℕ) → IsCounted c 0 → c ≢ 2 ^ 31 - 1 → IsCounted (add32 c 1) 0
IsCounted_up_free c h ne = record {
  is_word = ground arith;
  waiting = λ e. ground (arith, h.waiting, h.is_word);
  free = λ e. refl;
}

pub count_down_blocks :
    (c : ℕ) (n : ℕ)
    → IsCounted c n
    → (c == 0 || is_negative c) ≡ true
    → c ≢ 2 ^ 31
    → (is_negative (sub32 c 1) ≡ true) × IsCounted (sub32 c 1) (suc n)
count_down_blocks c n h e ne = (
  ground (arith, h.is_word),
  record {
    is_word = ground arith;
    waiting = λ e'. ground (arith, h.waiting, h.free, h.is_word);
    free = λ e'. ground (arith, h.waiting, h.free, h.is_word);
  },
)

pub count_down_passes :
    (c : ℕ) (n : ℕ)
    → IsCounted c n
    → (c == 0 || is_negative c) ≡ false
    → (is_negative (sub32 c 1) ≡ false) × IsCounted (sub32 c 1) n
count_down_passes c n h e = (
  ground (arith, h.is_word),
  record {
    is_word = ground arith;
    waiting = λ e'. ground (arith, h.waiting, h.free, h.is_word);
    free = λ e'. ground (arith, h.waiting, h.free, h.is_word);
  },
)

-- ===== src/Kernel/Run.antt =====
-- Commands of the kernel. A run ends with a result, by `scheduler_switch`, which jumps to the
-- process it was given and does not come back, at an access through a pointer that is not into
-- PCBPool, or without fuel.
use sebopesyslab.Base.{if◌then◌else◌}
use sebopesyslab.Kernel.{Ptr, Pcb, Kernel, Place, head, set_head, set_pcb, not_pcb}

pub data Run (A : Type 0) : Type 0 where
  ok : A → Kernel → Run A
  switched : Kernel → Run A
  fault : Run A
  out_of_fuel : Run A

abbrev pub Cmd : Type 0 → Type 0
Cmd A = Kernel → Run A

abbrev pub pure : {A : Type 0} → A → Cmd A
pure a k = ok a k

module _ {A B : Type 0} where
  abbrev pub and_then : Run A → (A → Cmd B) → Run B
  and_then (ok a k) f = f a k
  and_then (switched k) f = switched k
  and_then fault f = fault
  and_then out_of_fuel f = out_of_fuel

  infixl 5 ◌>>=◌ ◌>>◌
  abbrev pub ◌>>=◌ : Cmd A → (A → Cmd B) → Cmd B
  m >>= f = λ k. and_then (m k) f

  abbrev pub ◌>>◌ : Cmd A → Cmd B → Cmd B
  m >> n = m >>= λ _. n

abbrev pub get : Cmd Kernel
get k = ok k k

abbrev pub modify : (Kernel → Kernel) → Cmd (Unit {0})
modify f k = ok tt (f k)

-- `*p`, and an assignment to a field of `*p`
unfoldable pub load : Ptr → Cmd Pcb
load p k = if not_pcb p then fault else ok (k.pool p) k

unfoldable pub store : Ptr → (Pcb → Pcb) → Cmd (Unit {0})
store p f k = if not_pcb p then fault else ok tt (set_pcb p (f (k.pool p)) k)

-- `*head` and an assignment to it
abbrev pub load_head : Place → Cmd Ptr
load_head l k = ok (head l k) k

abbrev pub store_head : Place → Ptr → Cmd (Unit {0})
store_head l q k = ok tt (set_head l q k)

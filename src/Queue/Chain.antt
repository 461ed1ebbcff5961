-- ===== src/Queue/Chain.antt =====
-- What a list of PCBs is: from `p`, the `next` fields lead through distinct PCBs to NULL.
use sebopesyslab.Base.{
  ◌+◌, ◌≤◌, ◌≡◌, refl, true, false, List, [], ◌∷◌, ◌++◌, arith, has, has-append, length,
}
use sebopesyslab.Base.Pigeonhole.{Distinct, AllBelow, length-le_of_Distinct}
use sebopesyslab.Kernel.{Ptr, null, pcb_pool_max, Pcb, Kernel, Place, head, set_pcb, IsPcb, not_pcb}
use sebopesyslab.Kernel.Run.{ok, load, store}

abbrev pub Chain : (Ptr → Pcb) → Ptr → List Ptr → Type 0
Chain pool p [] = p ≡ null
Chain pool p (x ∷ xs) = (p ≡ x) × IsPcb x × (has x xs ≡ false) × Chain pool (pool x).next xs

abbrev pub IsQueue : Kernel → Place → List Ptr → Type 0
IsQueue k l xs = Chain k.pool (head l k) xs

abbrev pub last : Ptr → List Ptr → Ptr
last x [] = x
last x (y ∷ ys) = last y ys

pub not_pcb_of_IsPcb : (p : Ptr) → IsPcb p → not_pcb p ≡ false
not_pcb_of_IsPcb p h = ground arith

pub load-ok : (p : Ptr) (k : Kernel) → IsPcb p → load p k ≡ ok (k.pool p) k
unfolding load
load-ok p k h = rw (not_pcb_of_IsPcb p h)

pub store-ok :
    (p : Ptr) (f : Pcb → Pcb) (k : Kernel)
    → IsPcb p
    → store p f k ≡ ok tt (set_pcb p (f (k.pool p)) k)
unfolding store
store-ok p f k h = rw (not_pcb_of_IsPcb p h)

-- A change of other PCBs' links leaves the list as it is.
pub Chain-frame :
    (pool pool' : Ptr → Pcb) (p : Ptr) (xs : List Ptr)
    → ((a : Ptr) → has a xs ≡ true → (pool' a).next ≡ (pool a).next)
    → Chain pool p xs
    → Chain pool' p xs
Chain-frame pool pool' p [] same c = c
Chain-frame pool pool' p (x ∷ xs) same c = (
  c.0,
  c.1,
  c.2,
  rw (same x (ground arith))
      (Chain-frame pool pool' (pool x).next xs (λ a h. same a (ground arith)) c.3),
)

pub last-IsPcb :
    (pool : Ptr → Pcb) (h : Ptr) (xs : List Ptr)
    → IsPcb h
    → Chain pool (pool h).next xs
    → IsPcb (last h xs)
last-IsPcb pool h [] v c = v
last-IsPcb pool h (x ∷ xs) v c = last-IsPcb pool x xs c.1 c.3

pub has-last : (h : Ptr) (xs : List Ptr) → has (last h xs) (h ∷ xs) ≡ true
has-last h [] = ground arith
has-last h (x ∷ xs) = ground (arith, has-last x xs)

Chain-Distinct : (pool : Ptr → Pcb) (p : Ptr) (xs : List Ptr) → Chain pool p xs → Distinct xs
Chain-Distinct pool p [] c = tt
Chain-Distinct pool p (x ∷ xs) c = (c.2, Chain-Distinct pool (pool x).next xs c.3)

Chain-AllBelow :
    (pool : Ptr → Pcb) (p : Ptr) (xs : List Ptr) → Chain pool p xs → AllBelow (pcb_pool_max + 1) xs
Chain-AllBelow pool p [] c = tt
Chain-AllBelow pool p (x ∷ xs) c = (omega (arith, c.1), Chain-AllBelow pool (pool x).next xs c.3)

-- A list is never longer than the pool, so that the loops have fuel enough.
pub Chain-length :
    (pool : Ptr → Pcb) (p : Ptr) (xs : List Ptr) → Chain pool p xs → length xs ≤ pcb_pool_max + 1
Chain-length pool p xs c =
    length-le_of_Distinct (pcb_pool_max + 1) xs (Chain-Distinct pool p xs c)
      (Chain-AllBelow pool p xs c)

-- NULL is in no list.
pub not-has-null :
    (pool : Ptr → Pcb) (p : Ptr) (xs : List Ptr) → Chain pool p xs → has null xs ≡ false
not-has-null pool p [] c = refl
not-has-null pool p (x ∷ xs) c = ground (arith, c.1, not-has-null pool (pool x).next xs c.3)

pub IsPcb-of_has :
    (pool : Ptr → Pcb) (p a : Ptr) (xs : List Ptr) → Chain pool p xs → has a xs ≡ true → IsPcb a
IsPcb-of_has pool p a [] c h = ground arith
IsPcb-of_has pool p a (x ∷ xs) c h = ground (arith, c.1, IsPcb-of_has pool (pool x).next a xs c.3)

abbrev pub first : List Ptr → Ptr
first [] = null
first (x ∷ xs) = x

-- In the middle of a list: the node is a PCB, does not come earlier, and is followed by the rest.
pub record Inside (pool : Ptr → Pcb) (x : Ptr) (pre xs : List Ptr) : Type 0 where
  pub is_pcb : IsPcb x
  pub not_before : has x pre ≡ false
  pub not_behind : has x xs ≡ false
  pub follows : (pool x).next ≡ first xs

pub first_of_Chain : (pool : Ptr → Pcb) (p : Ptr) (xs : List Ptr) → Chain pool p xs → p ≡ first xs
first_of_Chain pool p [] c = c
first_of_Chain pool p (x ∷ xs) c = c.0

pub Chain-Inside :
    (pool : Ptr → Pcb) (p x : Ptr) (pre xs : List Ptr)
    → Chain pool p (pre ++ x ∷ xs)
    → Inside pool x pre xs
Chain-Inside pool p x [] xs c = record {
  is_pcb = c.1;
  not_before = refl;
  not_behind = c.2;
  follows = first_of_Chain pool (pool x).next xs c.3;
}
Chain-Inside pool p x (y ∷ ys) xs c =
    let rest = Chain-Inside pool (pool y).next x ys xs c.3 in
    record {
      is_pcb = rest.is_pcb;
      not_before = ground (arith, c.2, has-append y ys (x ∷ xs), rest.not_before);
      not_behind = rest.not_behind;
      follows = rest.follows;
    }

-- ===== src/Queue/Rep.antt =====
-- The abstract view of the kernel's lists: a list of PCBs for each place. `Rep` ties the linked
-- lists to it, and says that no PCB is in two of them.
use mathlib.Core.Path.{subst}
use sebopesyslab.Base.{
  ◌≡◌, refl, sym, ◌≢◌, inl, inr, Bool, true, false, List, [], ◌∷◌, ◌++◌, arith, ◌==◌, has, ◌∙◌,
  fun_ext, Bool-cases, if◌then◌else◌, erase, has-append, eq→==, not-has-erase,
}
use sebopesyslab.Kernel.{Ptr, Kernel, Place, head, ready_place, sleep_place, block, join, IsPcb}
use sebopesyslab.Kernel.Run.{ok}
use sebopesyslab.Queue.{ll_entail, ll_pop, ll_delete}
use sebopesyslab.Queue.Chain.{IsQueue, Chain-frame}
use sebopesyslab.Queue.Relinks.{Relinks}
use sebopesyslab.Queue.Entail.{entailed, was_filled, ll_entail-append}
use sebopesyslab.Queue.Delete.{popped, ll_pop-cons, ll_delete-erase}
use sebopesyslab.Queue.Unlink.{deleted, was_there}

abbrev pub same_place : Place → Place → Bool
same_place ready_place ready_place = true
same_place sleep_place sleep_place = true
same_place (block s) (block t) = s == t
same_place (join p) (join q) = p == q
same_place _ _ = false

pub same_place→eq : (l m : Place) → same_place l m ≡ true → l ≡ m
same_place→eq ready_place m e = ground arith
same_place→eq sleep_place m e = ground arith
same_place→eq (block s) m e = ground arith
same_place→eq (join p) m e = ground arith

pub same_place_refl : (l : Place) → same_place l l ≡ true
same_place_refl ready_place = refl
same_place_refl sleep_place = refl
same_place_refl (block s) = eq→== s s refl
same_place_refl (join p) = eq→== p p refl

pub ne_of_same_place : (l m : Place) → same_place l m ≡ false → l ≢ m
ne_of_same_place l m e h = cc (same_place_refl l, subst (λ z. same_place l z ≡ false) (sym h) e)

abbrev pub Queues : Type 0
Queues = Place → List Ptr

abbrev pub put : Place → List Ptr → Queues → Queues
put l ys q m = if same_place m l then ys else q m

-- `p` waits in no list.
abbrev pub Idle : Queues → Ptr → Type 0
Idle q p = (l : Place) → has p (q l) ≡ false

pub record Rep (k : Kernel) (q : Queues) : Type 0 where
  pub queues : (l : Place) → IsQueue k l (q l)
  pub apart : (a : Ptr) (l m : Place) → has a (q l) ≡ true → has a (q m) ≡ true → l ≡ m

pub put_self : (l : Place) (ys : List Ptr) (q : Queues) → put l ys q l ≡ ys
put_self l ys q = rw (same_place_refl l)

pub put_other :
    (l : Place) (ys : List Ptr) (q : Queues) (m : Place)
    → same_place m l ≡ false
    → put l ys q m ≡ q m
put_other l ys q m e = rw e

-- One list has changed to `ys`, by links of `s`, of which the other lists hold none.
pub Rep_step :
    {k k' : Kernel} {q : Queues} (l : Place) (s ys : List Ptr)
    → Rep k q
    → Relinks l s k k'
    → IsQueue k' l ys
    → ((a : Ptr) (m : Place) → m ≢ l → has a (q m) ≡ true → has a s ≡ false)
    → ((a : Ptr) (m : Place) → m ≢ l → has a (q m) ≡ true → has a ys ≡ false)
    → Rep k' (put l ys q)
Rep_step {k} {k'} {q} l s ys r f c free new = record { queues = queues'; apart = apart' }
  where
    queues' : (m : Place) → IsQueue k' m (put l ys q m)
    queues' m = elim (Bool-cases (same_place m l)) [
      | inl e ↦ rw (e, same_place→eq m l e) c
      | inr e ↦
          let ne : m ≢ l = ne_of_same_place m l e in
          rw (e, f.heads m ne)
            (Chain-frame k.pool k'.pool (head m k) (q m) (λ a h. f.links a (free a m ne h))
              (r.queues m))
    ]

    apart' :
        (a : Ptr) (m n : Place) → has a (put l ys q m) ≡ true → has a (put l ys q n) ≡ true → m ≡ n
    apart' a m n i j = elim (Bool-cases (same_place m l)) [
      | inl e ↦ elim (Bool-cases (same_place n l)) [
        | inl e' ↦ same_place→eq m l e ∙ sym (same_place→eq n l e')
        | inr e' ↦ cc (
          new a n (ne_of_same_place n l e') (subst (λ z. has a z ≡ true) (put_other l ys q n e') j),
          subst (λ z. has a (if z then ys else q m) ≡ true) e i,
        )
      ]
      | inr e ↦ elim (Bool-cases (same_place n l)) [
        | inl e' ↦ cc (
          new a m (ne_of_same_place m l e) (subst (λ z. has a z ≡ true) (put_other l ys q m e) i),
          subst (λ z. has a (if z then ys else q n) ≡ true) e' j,
        )
        | inr e' ↦
            r.apart a m n (subst (λ z. has a z ≡ true) (put_other l ys q m e) i)
              (subst (λ z. has a z ≡ true) (put_other l ys q n e') j)
      ]
    ]

-- No PCB of another list is in this one.
other_list :
    {k : Kernel} {q : Queues} (l : Place)
    → Rep k q
    → (a : Ptr) (m : Place) → m ≢ l
    → has a (q m) ≡ true
    → has a (q l) ≡ false
other_list {q} l r a m ne h = elim (Bool-cases (has a (q l))) [
  | inl i ↦ absurd (ne (r.apart a m l h i))
  | inr o ↦ o
]

pub only_here :
    {k : Kernel} {q : Queues} (l : Place)
    → Rep k q
    → (a : Ptr) (m : Place) → m ≢ l
    → has a (q l) ≡ true
    → has a (q m) ≡ false
only_here {q} l r a m ne h = elim (Bool-cases (has a (q m))) [
  | inl i ↦ absurd (ne (r.apart a m l i h))
  | inr o ↦ o
]

-- On well-formed lists, ll_entail of an idle PCB ends, reports whether the list was filled, and
-- refines appending the PCB at the end; the other lists, and everything but links, stay.
pub ll_entail-Rep :
    (l : Place) (p : Ptr) (k : Kernel) (q : Queues)
    → Rep k q
    → IsPcb p
    → Idle q p
    → (ll_entail l p k ≡ ok (was_filled (q l)) (entailed l p (q l) k))
      × Rep (entailed l p (q l) k) (put l (q l ++ p ∷ []) q)
      × Relinks l (p ∷ q l) k (entailed l p (q l) k)
ll_entail-Rep l p k q r v idle =
    let (ran, c, f) = ll_entail-append l p (q l) k v (idle l) (r.queues l) in
    (
      ran,
      Rep_step l (p ∷ q l) (q l ++ p ∷ []) r f c
          (λ a m ne h. ground (arith, other_list l r a m ne h, idle m, h))
          (λ a m ne h.
            rw (has-append a (q l) (p ∷ []), other_list l r a m ne h) (ground (arith, idle m, h))),
      f,
    )

-- On well-formed lists, ll_pop of a list that is not empty ends with its first PCB, which then
-- is in no list, and leaves the rest; the other lists, and everything but links, stay.
pub ll_pop-Rep :
    (l : Place) (x : Ptr) (xs : List Ptr) (k : Kernel) (q : Queues)
    → Rep k q
    → q l ≡ x ∷ xs
    → (ll_pop l k ≡ ok x (popped l x k))
      × Rep (popped l x k) (put l xs q)
      × Idle (put l xs q) x
      × IsPcb x
      × Relinks l (x ∷ xs) k (popped l x k)
ll_pop-Rep l x xs k q r e =
    let c : IsQueue k l (x ∷ xs) = subst (λ z. IsQueue k l z) e (r.queues l) in
    let (ran, c', f) = ll_pop-cons l x xs k c in
    (
      ran,
      Rep_step l (x ∷ xs) xs r f c'
          (λ a m ne h. subst (λ z. has a z ≡ false) e (other_list l r a m ne h))
          (λ a m ne h. tail_out a (subst (λ z. has a z ≡ false) e (other_list l r a m ne h))),
      idle,
      c.1,
      f,
    )
  where
    tail_out : (a : Ptr) → has a (x ∷ xs) ≡ false → has a xs ≡ false
    tail_out a o = ground (arith, o)

    idle : Idle (put l xs q) x
    idle m = elim (Bool-cases (same_place m l)) [
      | inl y ↦ rw y (subst (λ z. IsQueue k l z) e (r.queues l)).2
      | inr n ↦ rw n (
          only_here l r x m (ne_of_same_place m l n)
            (subst (λ z. has x z ≡ true) (sym e) (ground arith)))
    ]

-- On well-formed lists, ll_delete ends, reports whether the PCB was in that list, and refines
-- the removal of its first occurrence; the other lists, and everything but links, stay.
pub ll_delete-Rep :
    (l : Place) (p : Ptr) (k : Kernel) (q : Queues)
    → Rep k q
    → (ll_delete l p k ≡ ok (was_there p (q l)) (deleted l p (q l) k))
      × Rep (deleted l p (q l) k) (put l (erase p (q l)) q)
      × Relinks l (q l) k (deleted l p (q l) k)
ll_delete-Rep l p k q r =
    let (ran, c, f) = ll_delete-erase l p (q l) k (r.queues l) in
    (
      ran,
      Rep_step l (q l) (erase p (q l)) r f c (other_list l r)
          (λ a m ne h. not-has-erase a p (q l) (other_list l r a m ne h)),
      f,
    )

pub Rep_ext : {k : Kernel} {q q' : Queues} → ((l : Place) → q l ≡ q' l) → Rep k q → Rep k q'
Rep_ext {k} {q} {q'} same r = subst (λ z. Rep k z) (fun_ext same) r

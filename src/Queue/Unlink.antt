-- ===== src/Queue/Unlink.antt =====
-- Cutting a PCB out of a list: where the walk of `ll_delete` stops, and what the cut leaves.
use sebopesyslab.Base.{
  ℕ, zero, suc, ◌<◌, ◌≡◌, refl, true, false, List, [], ◌∷◌, arith, ◌==◌, has, erase, length, ◌∙◌,
  ◌⊎◌, inl, inr, ne→==_false, eq→==, ==→eq, ==_sym, Bool-cases, if◌then◌else◌, not-has-erase,
}
use sebopesyslab.Kernel.{Ptr, null, Pcb, Kernel, Place, set_head, IsPcb}
use sebopesyslab.Kernel.Run.{ok}
use sebopesyslab.Queue.{delete_loop}
use sebopesyslab.Queue.Chain.{Chain, IsQueue, load-ok, Chain-frame}
use sebopesyslab.Queue.Relinks.{
  link, set_next-ok, head-link, next-link_ne, next-link_self, head-set_head_self, next-set_head,
}

-- The node before `p`, or `pre` if `p` comes first.
abbrev pub before : Ptr → Ptr → List Ptr → Ptr
before pre p [] = pre
before pre p (x ∷ xs) = if p == x then pre else before x p xs

-- `p` is cut out behind `pre`, or from the head where `pre` is NULL.
unfoldable pub unlink : Place → Ptr → Ptr → Kernel → Kernel
unlink l pre p k =
    link p null (if pre == null then set_head l (k.pool p).next k else link pre (k.pool p).next k)

-- The state after `ll_delete` of `p` from the list `xs`.
abbrev pub deleted : Place → Ptr → List Ptr → Kernel → Kernel
deleted l p xs k = if has p xs then unlink l (before null p xs) p k else k

abbrev pub was_there : Ptr → List Ptr → ℕ
was_there p xs = if has p xs then 1 else 0

pub delete_hit :
    (n : ℕ) (l : Place) (p pre : Ptr) (k : Kernel)
    → IsPcb p
    → (pre ≡ null) ⊎ IsPcb pre
    → delete_loop (suc n) l p p pre k ≡ ok 1 (unlink l pre p k)
unfolding delete_loop unlink
delete_hit n l p pre k v (inl e) = rw (
  ne→==_false p null (omega (arith, v)),
  load-ok p k v,
  eq→== p p refl,
  eq→== pre null e,
  set_next-ok p null (set_head l (k.pool p).next k) v,
)
delete_hit n l p pre k v (inr w) = rw (
  ne→==_false p null (omega (arith, v)),
  load-ok p k v,
  eq→== p p refl,
  ne→==_false pre null (omega (arith, w)),
  set_next-ok pre (k.pool p).next k w,
  set_next-ok p null (link pre (k.pool p).next k) v,
)

delete_miss :
    (n : ℕ) (l : Place) (p x pre : Ptr) (k : Kernel)
    → IsPcb x
    → (p == x) ≡ false
    → delete_loop (suc n) l p x pre k ≡ delete_loop n l p (k.pool x).next x k
unfolding delete_loop
delete_miss n l p x pre k v e =
    rw (ne→==_false x null (omega (arith, v)), load-ok x k v, ==_sym x p, e)

pub delete_loop_lem :
    (n : ℕ) (l : Place) (p sleep pre : Ptr) (xs : List Ptr) (k : Kernel)
    → (pre ≡ null) ⊎ IsPcb pre
    → Chain k.pool sleep xs
    → length xs < n
    → delete_loop n l p sleep pre k
      ≡ (if has p xs then ok 1 (unlink l (before pre p xs) p k) else ok 0 k)
delete_loop_lem zero l p sleep pre xs k w c b = absurd (omega arith)
delete_loop_lem (suc n) l p sleep pre [] k w c b = unfold delete_loop in rw c
delete_loop_lem (suc n) l p sleep pre (x ∷ xs) k w c b = elim (Bool-cases (p == x)) [
  | inl e ↦ rw (e, c.0, ← ==→eq p x e) (delete_hit n l p pre k (rw (==→eq p x e) c.1) w)
  | inr e ↦
      rw (e, c.0, delete_miss n l p x pre k c.1 e)
        (delete_loop_lem n l p (k.pool x).next x xs k (inr c.1) c.3 (omega arith))
]

pub has-before : (x p : Ptr) (xs : List Ptr) → has (before x p xs) (x ∷ xs) ≡ true
has-before x p [] = ground arith
has-before x p (y ∷ ys) = ground (arith, has-before y p ys)

pub before-IsPcb :
    (pool : Ptr → Pcb) (x p : Ptr) (xs : List Ptr)
    → IsPcb x
    → Chain pool (pool x).next xs
    → IsPcb (before x p xs)
before-IsPcb pool x p [] v c = v
before-IsPcb pool x p (y ∷ ys) v c = elim (Bool-cases (p == y)) [
  | inl e ↦ rw e v
  | inr e ↦ rw e (before-IsPcb pool y p ys c.1 c.3)
]

-- Two links of other PCBs leave a list as it is.
Chain-frame_two :
    (k : Kernel) (a b q r h : Ptr) (xs : List Ptr)
    → has a xs ≡ false
    → has b xs ≡ false
    → Chain k.pool h xs
    → Chain (link a q (link b r k)).pool h xs
Chain-frame_two k a b q r h xs ea eb c =
    Chain-frame k.pool (link a q (link b r k)).pool h xs
      (λ d i.
        next-link_ne a q (link b r k) d (apart a ea d i) ∙ next-link_ne b r k d (apart b eb d i))
      c
  where
    apart : (z : Ptr) → has z xs ≡ false → (d : Ptr) → has d xs ≡ true → (d == z) ≡ false
    apart z o d i = elim (Bool-cases (d == z)) [ inl y ↦ ground (arith, o, i) | inr n ↦ n ]

-- Cutting `p` out behind `y`.
Chain-unlink :
    (k : Kernel) (y p : Ptr) (xs : List Ptr)
    → (y == p) ≡ false
    → has y xs ≡ false
    → has p xs ≡ true
    → Chain k.pool (k.pool y).next xs
    → let k' = link p null (link (before y p xs) (k.pool p).next k) in
      Chain k'.pool (k'.pool y).next (erase p xs)
Chain-unlink k y p [] ne out i c = cc
Chain-unlink k y p (x ∷ xs) ne out i c = elim (Bool-cases (p == x)) [
  | inl e ↦
      rw
        (e, next-link_ne p null (link y (k.pool p).next k) y ne, next-link_self y (k.pool p).next k)
        (Chain-frame_two k p y null (k.pool p).next (k.pool p).next xs (rw (==→eq p x e) c.2)
          (ground (arith, out)) (rw (==→eq p x e) c.3))
  | inr e ↦
      let far : (y == before x p xs) ≡ false = ground (arith, out, has-before x p xs) in
      rw e (
        next-link_ne p null (link (before x p xs) (k.pool p).next k) y ne
            ∙ next-link_ne (before x p xs) (k.pool p).next k y far
            ∙ c.0,
        c.1,
        not-has-erase x p xs c.2,
        Chain-unlink k x p xs (==_sym x p ∙ e) c.2 (ground (arith, i, e)) c.3,
      )
]

pub unlink-head :
    (l : Place) (p : Ptr) (k : Kernel)
    → unlink l null p k ≡ link p null (set_head l (k.pool p).next k)
unfolding unlink
unlink-head l p k = refl

pub unlink-behind :
    (l : Place) (z p : Ptr) (k : Kernel)
    → IsPcb z
    → unlink l z p k ≡ link p null (link z (k.pool p).next k)
unfolding unlink
unlink-behind l z p k v = rw (ne→==_false z null (omega (arith, v)))

pub before_hit : (pre p x : Ptr) (xs : List Ptr) → (p == x) ≡ true → before pre p (x ∷ xs) ≡ pre
before_hit pre p x xs e = rw e

pub before_miss :
    (pre p x : Ptr) (xs : List Ptr) → (p == x) ≡ false → before pre p (x ∷ xs) ≡ before x p xs
before_miss pre p x xs e = rw e

pub IsQueue-cut_head :
    (l : Place) (p x : Ptr) (xs : List Ptr) (k : Kernel)
    → IsQueue k l (x ∷ xs)
    → (p == x) ≡ true
    → IsQueue (link p null (set_head l (k.pool p).next k)) l (erase p (x ∷ xs))
IsQueue-cut_head l p x xs k c e =
    rw
      (e, head-link p null (set_head l (k.pool p).next k) l, head-set_head_self l (k.pool p).next k)
      (Chain-frame k.pool (link p null (set_head l (k.pool p).next k)).pool (k.pool p).next xs
        (λ a h.
          next-link_ne p null (set_head l (k.pool p).next k) a (ground (arith, h, c.2, e))
          ∙ next-set_head l (k.pool p).next k a)
        (rw (==→eq p x e) c.3))

pub IsQueue-cut_behind :
    (l : Place) (p x : Ptr) (xs : List Ptr) (k : Kernel)
    → IsQueue k l (x ∷ xs)
    → has p (x ∷ xs) ≡ true
    → (p == x) ≡ false
    → IsQueue (link p null (link (before x p xs) (k.pool p).next k)) l (erase p (x ∷ xs))
IsQueue-cut_behind l p x xs k c i e = rw e (
  head-link p null (link (before x p xs) (k.pool p).next k) l
      ∙ head-link (before x p xs) (k.pool p).next k l
      ∙ c.0,
  c.1,
  not-has-erase x p xs c.2,
  Chain-unlink k x p xs (==_sym x p ∙ e) c.2 (ground (arith, i, e)) c.3,
)

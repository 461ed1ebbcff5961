-- ===== src/Queue/Entail.antt =====
-- `ll_entail` appends: total, with the nodes and heads that it leaves alone.
use sebopesyslab.Base.{
  ℕ, zero, suc, ◌<◌, ◌≡◌, refl, false, List, [], ◌∷◌, ◌++◌, arith, ◌==◌, has, has-append, length,
  ◌∙◌, ne→==_false,
}
use sebopesyslab.Kernel.{Ptr, null, Kernel, Place, head, set_head, IsPcb}
use sebopesyslab.Kernel.Run.{ok}
use sebopesyslab.Queue.{walk_bound, entail_loop, ll_entail}
use sebopesyslab.Queue.Chain.{Chain, IsQueue, last, load-ok, Chain-frame, has-last, Chain-length}
use sebopesyslab.Queue.Relinks.{
  Relinks, link, set_next-ok, head-link, next-link_ne, next-link_self, head-set_head_self,
  next-set_head, Relinks-set_head, Relinks-link, Relinks-trans,
}

-- The state after `ll_entail` of `p` to the list `xs`.
abbrev pub entailed : Place → Ptr → List Ptr → Kernel → Kernel
entailed l p [] k = set_head l p (link p null k)
entailed l p (x ∷ xs) k = link (last x xs) p (link p null k)

abbrev pub was_filled : List Ptr → ℕ
was_filled [] = 0
was_filled (x ∷ xs) = 1

entail_loop_lem :
    (n : ℕ) (h p : Ptr) (xs : List Ptr) (k : Kernel)
    → IsPcb h
    → Chain k.pool (k.pool h).next xs
    → length xs < n
    → entail_loop n h p k ≡ ok 1 (link (last h xs) p k)
unfolding entail_loop
entail_loop_lem zero h p xs k v c b = absurd (omega arith)
entail_loop_lem (suc n) h p [] k v c b = rw (load-ok h k v, c, set_next-ok h p k v)
entail_loop_lem (suc n) h p (x ∷ xs) k v c b =
    rw (load-ok h k v, ne→==_false (k.pool h).next null (omega (arith, c.0, c.1)), c.0)
      (entail_loop_lem n x p xs k c.1 c.3 (omega arith))

not-has-append :
    (p : Ptr) (xs : List Ptr) (x : Ptr)
    → (x == p) ≡ false
    → has x xs ≡ false
    → has x (xs ++ p ∷ []) ≡ false
not-has-append p xs x e h = rw (has-append x xs (p ∷ []), h, e)

-- The rest of a list behind `x` is not changed by `p->next = NULL`.
Chain-behind :
    (k : Kernel) (p x : Ptr) (xs : List Ptr)
    → has p (x ∷ xs) ≡ false
    → Chain k.pool (k.pool x).next xs
    → Chain (link p null k).pool ((link p null k).pool x).next xs
Chain-behind k p x xs out c = rw (next-link_ne p null k x (ground (arith, out))) (
    Chain-frame k.pool (link p null k).pool (k.pool x).next xs
      (λ a h. next-link_ne p null k a (ground (arith, out, h))) c)

-- Writing `p` behind the last node extends the list by `p`.
Chain-link :
    (k : Kernel) (h p : Ptr) (xs : List Ptr)
    → IsPcb p
    → (k.pool p).next ≡ null
    → has p (h ∷ xs) ≡ false
    → has h xs ≡ false
    → Chain k.pool (k.pool h).next xs
    → Chain (link (last h xs) p k).pool ((link (last h xs) p k).pool h).next (xs ++ p ∷ [])
Chain-link k h p [] v nil out fresh c =
    (next-link_self h p k, v, refl, next-link_ne h p k p (ground (arith, out)) ∙ nil)
Chain-link k h p (x ∷ xs) v nil out fresh c =
    let far : (h == last x xs) ≡ false = ground (arith, fresh, has-last x xs) in
    (
      next-link_ne (last x xs) p k h far ∙ c.0,
      c.1,
      not-has-append p xs x (ground (arith, out)) c.2,
      Chain-link k x p xs v nil (ground (arith, out)) c.2 c.3,
    )

IsQueue-entailed :
    (l : Place) (p : Ptr) (xs : List Ptr) (k : Kernel)
    → IsPcb p
    → has p xs ≡ false
    → IsQueue k l xs
    → IsQueue (entailed l p xs k) l (xs ++ p ∷ [])
IsQueue-entailed l p [] k v out c = (
  head-set_head_self l p (link p null k),
  v,
  refl,
  next-set_head l p (link p null k) p ∙ next-link_self p null k,
)
IsQueue-entailed l p (x ∷ xs) k v out c =
    let k' : Kernel = link p null k in
    let rest = Chain-behind k p x xs out c.3 in
    (
      head-link (last x xs) p k' l ∙ head-link p null k l ∙ c.0,
      c.1,
      not-has-append p xs x (ground (arith, out)) c.2,
      Chain-link k' x p xs v (next-link_self p null k) out c.2 rest,
    )

-- Appending a PCB that the list does not hold: `ll_entail` ends, returns whether the list held
-- something, and the list is then extended by that PCB.
pub ll_entail-append :
    (l : Place) (p : Ptr) (xs : List Ptr) (k : Kernel)
    → IsPcb p
    → has p xs ≡ false
    → IsQueue k l xs
    → (ll_entail l p k ≡ ok (was_filled xs) (entailed l p xs k))
      × IsQueue (entailed l p xs k) l (xs ++ p ∷ [])
      × Relinks l (p ∷ xs) k (entailed l p xs k)
unfolding ll_entail
ll_entail-append l p xs k v out c = (runs xs out c, IsQueue-entailed l p xs k v out c, relinks xs)
  where
    runs :
        (ys : List Ptr)
        → has p ys ≡ false
        → IsQueue k l ys
        → ll_entail l p k ≡ ok (was_filled ys) (entailed l p ys k)
    runs [] o c = rw (set_next-ok p null k v, c)
    runs (y ∷ ys) o c =
        rw (set_next-ok p null k v, ne→==_false (head l k) null (omega (arith, c.0, c.1)), c.0)
          (entail_loop_lem walk_bound y p ys (link p null k) c.1 (Chain-behind k p y ys o c.3)
            (omega (arith, Chain-length k.pool y (y ∷ ys) (refl, c.1, c.2, c.3))))

    relinks : (ys : List Ptr) → Relinks l (p ∷ ys) k (entailed l p ys k)
    relinks [] =
        Relinks-trans (Relinks-link l p null (p ∷ []) k (ground arith))
          (Relinks-set_head l p (p ∷ []) (link p null k))
    relinks (y ∷ ys) =
        Relinks-trans (Relinks-link l p null (p ∷ y ∷ ys) k (ground arith)) (
          Relinks-link l (last y ys) p (p ∷ y ∷ ys) (link p null k) (ground (arith, has-last y ys)))

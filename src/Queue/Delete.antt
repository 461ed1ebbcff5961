-- ===== src/Queue/Delete.antt =====
-- `ll_delete` and `ll_pop`: total, with the nodes and heads that they leave alone.
use sebopesyslab.Base.{
  ℕ, ◌+◌, ◌≡◌, refl, Bool, true, false, List, [], ◌∷◌, arith, ◌==◌, has, erase, ◌∙◌, inl, inr,
  eq→==, Bool-cases, if◌then◌else◌, erase-not-has, ap, sym,
}
use mathlib.Core.Path.{subst}
use sebopesyslab.Kernel.{Ptr, null, Kernel, Place, head, set_head, pcb_pool_max}
use sebopesyslab.Kernel.Run.{Run, ok}
use sebopesyslab.Queue.{walk_bound, ll_delete, ll_pop}
use sebopesyslab.Queue.Chain.{IsQueue, Chain-length}
use sebopesyslab.Queue.Relinks.{
  Relinks, link, Relinks-set_head, Relinks-link, Relinks-trans, Relinks-refl,
}
use sebopesyslab.Queue.Unlink.{
  IsQueue-cut_behind, IsQueue-cut_head, before, before-IsPcb, before_hit, before_miss, delete_hit,
  delete_loop_lem, deleted, has-before, unlink, unlink-behind, unlink-head, was_there,
}

module _ (l : Place) (p : Ptr) where
  unlink_lem :
      (xs : List Ptr) (k : Kernel)
      → IsQueue k l xs
      → has p xs ≡ true
      → IsQueue (unlink l (before null p xs) p k) l (erase p xs)
        × Relinks l xs k (unlink l (before null p xs) p k)
  unlink_lem [] k c i = cc
  unlink_lem (x ∷ xs) k c i = elim (Bool-cases (p == x)) [
    | inl e ↦
        subst (λ z. IsQueue z l (erase p (x ∷ xs)) × Relinks l (x ∷ xs) k z)
          (sym (ap (λ z. unlink l z p k) (before_hit null p x xs e) ∙ unlink-head l p k))
          (
            IsQueue-cut_head l p x xs k c e,
            Relinks-trans (Relinks-set_head l (k.pool p).next (x ∷ xs) k)
                (Relinks-link l p null (x ∷ xs) (set_head l (k.pool p).next k) i),
          )
    | inr e ↦
        subst (λ z. IsQueue z l (erase p (x ∷ xs)) × Relinks l (x ∷ xs) k z)
          (sym (
            ap (λ z. unlink l z p k) (before_miss null p x xs e)
            ∙ unlink-behind l (before x p xs) p k (before-IsPcb k.pool x p xs c.1 c.3)))
          (
            IsQueue-cut_behind l p x xs k c i e,
            Relinks-trans
                (Relinks-link l (before x p xs) (k.pool p).next (x ∷ xs) k (has-before x p xs))
                (Relinks-link l p null (x ∷ xs) (link (before x p xs) (k.pool p).next k) i),
          )
  ]

  deleted_hit :
      (xs : List Ptr) (k : Kernel)
      → has p xs ≡ true
      → deleted l p xs k ≡ unlink l (before null p xs) p k
  deleted_hit xs k i = rw i

  deleted_miss : (xs : List Ptr) (k : Kernel) → has p xs ≡ false → deleted l p xs k ≡ k
  deleted_miss xs k o = rw o

  ll_delete-ok :
      (xs : List Ptr) (k : Kernel)
      → IsQueue k l xs
      → ll_delete l p k ≡ ok (was_there p xs) (deleted l p xs k)
  unfolding ll_delete
  ll_delete-ok xs k c =
      delete_loop_lem walk_bound l p (head l k) null xs k (inl refl) c
        (omega (arith, Chain-length k.pool (head l k) xs c))
      ∙ both (has p xs)
    where
      both :
          (b : Bool)
          → ◌≡◌ {A = Run ℕ}
              (if b then ok 1 (unlink l (before null p xs) p k) else ok 0 k)
              (ok (if b then 1 else 0) (if b then unlink l (before null p xs) p k else k))
      both true = refl
      both false = refl

  -- `ll_delete` ends and says whether `p` was in the list; the list is then the one without `p`,
  -- and nothing but this list's head and the links of its members has changed.
  pub ll_delete-erase :
      (xs : List Ptr) (k : Kernel)
      → IsQueue k l xs
      → (ll_delete l p k ≡ ok (was_there p xs) (deleted l p xs k))
        × IsQueue (deleted l p xs k) l (erase p xs)
        × Relinks l xs k (deleted l p xs k)
  ll_delete-erase xs k c = elim (Bool-cases (has p xs)) [
    | inl i ↦ (
      ll_delete-ok xs k c,
      subst (λ z. IsQueue z l (erase p xs)) (sym (deleted_hit xs k i)) (unlink_lem xs k c i).0,
      subst (λ z. Relinks l xs k z) (sym (deleted_hit xs k i)) (unlink_lem xs k c i).1,
    )
    | inr o ↦ (
      ll_delete-ok xs k c,
      subst (λ z. IsQueue z l (erase p xs)) (sym (deleted_miss xs k o))
          (rw (erase-not-has p xs o) c),
      subst (λ z. Relinks l xs k z) (sym (deleted_miss xs k o)) (Relinks-refl l xs k),
    )
  ]

-- `ll_pop` of an empty list gives NULL and changes nothing.
pub ll_pop-nil : (l : Place) (k : Kernel) → IsQueue k l [] → ll_pop l k ≡ ok null k
unfolding ll_pop
ll_pop-nil l k c = rw ((ll_delete-erase l (head l k) [] k c).0, c)

-- The state after `ll_pop` of a list that begins with `x`.
abbrev pub popped : Place → Ptr → Kernel → Kernel
popped l x k = link x null (set_head l (k.pool x).next k)

-- `ll_pop` takes the first PCB off, and resets its link.
pub ll_pop-cons :
    (l : Place) (x : Ptr) (xs : List Ptr) (k : Kernel)
    → IsQueue k l (x ∷ xs)
    → (ll_pop l k ≡ ok x (popped l x k))
      × IsQueue (popped l x k) l xs
      × Relinks l (x ∷ xs) k (popped l x k)
unfolding ll_pop ll_delete
ll_pop-cons l x xs k c = (
  rw (c.0, delete_hit (pcb_pool_max + 1) l x null k c.1 (inl refl), unlink-head l x k),
  subst (λ ys. IsQueue (popped l x k) l ys) (erase_self x xs)
      (IsQueue-cut_head l x x xs k c (eq→== x x refl)),
  Relinks-trans (Relinks-set_head l (k.pool x).next (x ∷ xs) k)
      (Relinks-link l x null (x ∷ xs) (set_head l (k.pool x).next k) (ground arith)),
)
  where
    erase_self : (y : Ptr) (ys : List Ptr) → erase y (y ∷ ys) ≡ ys
    erase_self y ys = ground arith

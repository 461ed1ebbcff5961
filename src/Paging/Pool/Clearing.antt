-- ===== src/Paging/Pool/Clearing.antt =====
-- What ALLOC_ZERO clears: memset is given a number of bytes and counts words.
use mathlib.Core.Path.{subst}
use sebopesyslab.Base.{
  ℕ, ◌+◌, ◌*◌, ◌≤◌, ◌<◌, ◌≡◌, refl, ap, ◌∙◌, true, arith, List, ◌∷◌, ne→==_false, lt→ltb,
  le→ltb_false,
}
use sebopesyslab.Base.Action.{ok, fault}
use sebopesyslab.Paging.{Vm, Page, null, npages, nr_pte, page_size, mem_words, slot, frame, memset}
use sebopesyslab.Paging.Pool.{page_alloc}
use sebopesyslab.Paging.Pool.FreeList.{FreeList, page_alloc-Pops}

-- A page with three more pages behind it: these are cleared too.
pub record Clears (x : Page) (m : Vm) : Type 0 where
  pub out : Vm
  pub ends : page_alloc true m ≡ ok x out
  pub cleared : (k : ℕ) → k < 4 * nr_pte → out.words (slot (frame x) k) ≡ 0
  pub before : (i : ℕ) → i < slot (frame x) 0 → out.words i ≡ m.words i
  pub behind : (i : ℕ) → slot (frame x) 0 + 4 * nr_pte ≤ i → out.words i ≡ m.words i

page_alloc-Clears :
    (x : Page) (xs : List Page) (m : Vm) → FreeList m (x ∷ xs) → frame x + 4 ≤ npages → Clears x m
page_alloc-Clears x xs m h b =
    let p = page_alloc-Pops true x xs m h (omega (arith, b)) in
    record {
      out = p.out;
      ends = p.ends;
      cleared = λ k l. ap (λ w. w (slot (frame x) k)) p.memory ∙ ground (arith, l);
      before = λ i l. ap (λ w. w i) p.memory ∙ ground (arith, l);
      behind = λ i l. ap (λ w. w i) p.memory ∙ ground (arith, l);
    }

page_alloc-fault_top :
    (xs : List Page) (m : Vm)
    → FreeList m (m.free_list ∷ xs)
    → npages < frame m.free_list + 4
    → page_alloc true m ≡ fault
unfolding page_alloc memset
page_alloc-fault_top xs m h b =
    rw
      (
        ne→==_false m.free_list null (omega (arith, h.1)),
        le→ltb_false npages m.free_list h.1.1,
        lt→ltb mem_words (slot (frame m.free_list) 0 + page_size) (omega (arith, b)),
      )
      refl

-- When x is the first page of the free list, page_alloc with ALLOC_ZERO clears the four pages
-- from x on and no other word, and for the last three pages of the memory its access leaves the
-- memory.
pub page_alloc-clearing :
    (x : Page) (xs : List Page) (m : Vm)
    → FreeList m (x ∷ xs)
    → (frame x + 4 ≤ npages → Clears x m) × (npages < frame x + 4 → page_alloc true m ≡ fault)
page_alloc-clearing x xs m h = (
  λ b. page_alloc-Clears x xs m h b,
  subst (λ y. FreeList m (y ∷ xs) → npages < frame y + 4 → page_alloc true m ≡ fault) h.0
      (λ l b. page_alloc-fault_top xs m l b) h,
)

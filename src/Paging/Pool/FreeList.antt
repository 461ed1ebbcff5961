-- ===== src/Paging/Pool/FreeList.antt =====
-- The free list of pages as a stack: page_alloc takes the top, page_free puts a page on top.
use mathlib.Core.Path.{subst}
use sebopesyslab.Base.{
  ℕ, ◌+◌, ◌≤◌, ◌<◌, ◌≡◌, refl, Bool, true, false, List, [], ◌∷◌, arith, ◌==◌, if◌then◌else◌, has,
  ne→==_false, eq→==, le→ltb_false, Bool-cases, inl, inr,
}
use sebopesyslab.Base.Action.{ok}
use sebopesyslab.Kernel.{update}
use sebopesyslab.Paging.{
  Vm, Page, null, npages, not_page, frame, slot, page_size, mem_words, range, memset,
}
use sebopesyslab.Paging.Pool.{page_alloc, page_free, page_decref, page_incref, inc16, dec16}

abbrev pub IsPage : Page → Type 0
IsPage p = (0 < p) × (p ≤ npages)

-- From `p`, the links lead through different pages to NULL.
abbrev pub Links : (Page → Page) → Page → List Page → Type 0
Links links p [] = p ≡ null
Links links p (x ∷ xs) = (p ≡ x) × IsPage x × (has x xs ≡ false) × Links links (links x) xs

abbrev pub FreeList : Vm → List Page → Type 0
FreeList m xs = Links m.links m.free_list xs

pub not_page_of_IsPage : (p : Page) → IsPage p → not_page p ≡ false
not_page_of_IsPage p h = ground (arith, h)

-- A link of a page outside the list does not matter.
pub Links-frame :
    (links : Page → Page) (a q p : Page) (xs : List Page)
    → has a xs ≡ false
    → Links links p xs
    → Links (update links a q) p xs
Links-frame links a q p [] o h = h
Links-frame links a q p (x ∷ xs) o h =
    let ne : (x == a) ≡ false = ground (arith, o) in
    let rest : has a xs ≡ false = ground (arith, o) in
    (h.0, h.1, h.2, rw ne (Links-frame links a q (links x) xs rest h.3))

abbrev taken_page : Page → Vm → Vm
taken_page x m = record m { free_list = m.links x; links = update m.links x null }

abbrev pub cleared : Page → Vm → Vm
cleared x m = record m { words = range page_size (slot (frame x) 0) (λ _. 0) 0 m.words }

-- What is left of `m` when the page `x` is taken off the free list, the others being `xs`.
pub record Popped (x : Page) (xs : List Page) (m out : Vm) : Type 0 where
  pub rest_free : FreeList out xs
  pub is_page : IsPage x
  pub not_free : has x xs ≡ false
  pub unlinked : out.links x ≡ null
  pub same_refs : out.refs ≡ m.refs

module _ (xs : List Page) (m : Vm) (h : FreeList m (m.free_list ∷ xs)) where
  page_alloc-plain : page_alloc false m ≡ ok m.free_list (taken_page m.free_list m)
  unfolding page_alloc
  page_alloc-plain =
      rw (ne→==_false m.free_list null (omega (arith, h.1)), le→ltb_false npages m.free_list h.1.1)

  page_alloc-zeroed :
      slot (frame m.free_list) 0 + page_size ≤ mem_words
      → page_alloc true m ≡ ok m.free_list (taken_page m.free_list (cleared m.free_list m))
  unfolding page_alloc memset
  page_alloc-zeroed b = rw (
    ne→==_false m.free_list null (omega (arith, h.1)),
    le→ltb_false npages m.free_list h.1.1,
    le→ltb_false mem_words (slot (frame m.free_list) 0 + page_size) b,
  )

  Popped-taken_page :
      (words : ℕ → ℕ)
      → Popped m.free_list xs m (taken_page m.free_list (record m { words = words }))
  Popped-taken_page words = record {
    rest_free = Links-frame m.links m.free_list null (m.links m.free_list) xs h.2 h.3;
    is_page = h.1;
    not_free = h.2;
    unlinked = rw (eq→== m.free_list m.free_list refl) refl;
    same_refs = refl;
  }

pub page_alloc-nil : (zeroed : Bool) (m : Vm) → FreeList m [] → page_alloc zeroed m ≡ ok null m
unfolding page_alloc
page_alloc-nil zeroed m h = rw h

pub record Pops (zeroed : Bool) (x : Page) (xs : List Page) (m : Vm) : Type 0 where
  pub out : Vm
  pub ends : page_alloc zeroed m ≡ ok x out
  pub popped : Popped x xs m out
  pub memory :
      out.words
      ≡ (if zeroed then range page_size (slot (frame x) 0) (λ _. 0) 0 m.words else m.words)

page_alloc-Pops_top :
    (zeroed : Bool) (xs : List Page) (m : Vm)
    → FreeList m (m.free_list ∷ xs)
    → slot (frame m.free_list) 0 + page_size ≤ mem_words
    → Pops zeroed m.free_list xs m
page_alloc-Pops_top true xs m h b = record {
  out = taken_page m.free_list (cleared m.free_list m);
  ends = page_alloc-zeroed xs m h b;
  popped = Popped-taken_page xs m h (cleared m.free_list m).words;
  memory = refl;
}
page_alloc-Pops_top false xs m h b = record {
  out = taken_page m.free_list m;
  ends = page_alloc-plain xs m h;
  popped = Popped-taken_page xs m h m.words;
  memory = refl;
}

-- When the free list is x and then xs, and the 4096 words from x on are in the memory,
-- page_alloc returns x with a link of NULL, xs is the free list, and no count changes; the
-- words change only with ALLOC_ZERO, which sets those 4096.
pub page_alloc-Pops :
    (zeroed : Bool) (x : Page) (xs : List Page) (m : Vm)
    → FreeList m (x ∷ xs)
    → slot (frame x) 0 + page_size ≤ mem_words
    → Pops zeroed x xs m
page_alloc-Pops zeroed x xs m h =
    subst (λ y. FreeList m (y ∷ xs) → slot (frame y) 0 + page_size ≤ mem_words → Pops zeroed y xs m)
      h.0 (page_alloc-Pops_top zeroed xs m) h

abbrev pub pushed : Page → Vm → Vm
pushed p m = record m { links = update m.links p m.free_list; free_list = p }

page_free-ok : (p : Page) (m : Vm) → IsPage p → page_free p m ≡ ok tt (pushed p m)
unfolding page_free
page_free-ok p m v = rw (not_page_of_IsPage p v)

FreeList-pushed :
    (p : Page) (xs : List Page) (m : Vm)
    → IsPage p
    → has p xs ≡ false
    → FreeList m xs
    → FreeList (pushed p m) (p ∷ xs)
FreeList-pushed p xs m v o h =
    (refl, v, o, rw (eq→== p p refl) (Links-frame m.links p m.free_list m.free_list xs o h))

abbrev pub dropped : Page → Vm → Vm
dropped p m = record m { refs = update m.refs p (dec16 (m.refs p)) }

-- `m` after a page loses a reference, which was its last one or not.
abbrev pub after_drop : Bool → Page → Vm → Vm
after_drop last p m = if last then pushed p (dropped p m) else dropped p m

pub page_decref-after_drop :
    (p : Page) (m : Vm)
    → IsPage p
    → page_decref p m ≡ ok tt (after_drop (dec16 (m.refs p) == 0) p m)
unfolding page_decref
page_decref-after_drop p m v =
    rw (not_page_of_IsPage p v) (elim (Bool-cases (dec16 (m.refs p) == 0)) [
      | inl e ↦ rw e (page_free-ok p (dropped p m) v)
      | inr e ↦ rw e refl
    ])

pub FreeList-after_drop :
    (p : Page) (xs : List Page) (m : Vm)
    → IsPage p
    → has p xs ≡ false
    → FreeList m xs
    → FreeList
        (after_drop (dec16 (m.refs p) == 0) p m)
        (if dec16 (m.refs p) == 0 then p ∷ xs else xs)
FreeList-after_drop p xs m v o h = elim (Bool-cases (dec16 (m.refs p) == 0)) [
  | inl e ↦ rw e (FreeList-pushed p xs (dropped p m) v o h)
  | inr e ↦ rw e h
]

-- On a page that is not on the free list, page_decref takes one off its 16-bit count, and puts
-- it on top of the free list exactly when the count is then 0.
pub page_decref-lists :
    (p : Page) (xs : List Page) (m : Vm)
    → IsPage p
    → has p xs ≡ false
    → FreeList m xs
    → (page_decref p m ≡ ok tt (after_drop (dec16 (m.refs p) == 0) p m))
      × FreeList
          (after_drop (dec16 (m.refs p) == 0) p m)
          (if dec16 (m.refs p) == 0 then p ∷ xs else xs)
page_decref-lists p xs m v o h = (page_decref-after_drop p m v, FreeList-after_drop p xs m v o h)

abbrev pub counted : Page → Vm → Vm
counted p m = record m { refs = update m.refs p (inc16 (m.refs p)) }

pub page_incref-counted : (p : Page) (m : Vm) → IsPage p → page_incref p m ≡ ok tt (counted p m)
unfolding page_incref
page_incref-counted p m v = rw (not_page_of_IsPage p v) refl

-- ===== src/Paging/Tables/Mapping.antt =====
-- page_insert, page_lookup and page_remove as operations on the map from addresses to pages.
use mathlib.Core.Path.{subst}
use sebopesyslab.Base.{
  ℕ, ◌+◌, ◌*◌, ◌%◌, ◌<◌, ◌≡◌, ◌≢◌, refl, sym, ap, ◌∙◌, true, false, arith, ◌==◌, if◌then◌else◌,
  none, some, List, ◌∷◌, eq→==, ne→==_false, has,
}
use sebopesyslab.Base.Action.{ok}
use sebopesyslab.Kernel.{update}
use sebopesyslab.Paging.{
  Vm, Page, npages, page_size, slot, ptx, is_present, frame_of, page_at, frame, translate,
}
use sebopesyslab.Paging.Pool.{inc16, dec16}
use sebopesyslab.Paging.Pool.FreeList.{after_drop, FreeList-after_drop, FreeList, IsPage}
use sebopesyslab.Paging.Tables.{page_lookup, page_remove, page_insert, entry}
use sebopesyslab.Paging.Tables.Walk.{
  translate-some, dir_slot, pte_of, HasTable, page_lookup-some, entry-facts, dir_slot-apart,
}
use sebopesyslab.Paging.Tables.Insert.{
  after_drop-words, after_drop-refs, with_word, inserted, page_insert-inserted, left_refs,
  left_free, old_page, vacated-words, vacated-refs, vacated-free, removed, page_remove-removed,
}

-- The address `other` does not go through the entry for `va`.
abbrev pub Apart : (ℕ → ℕ) → (dir va other : ℕ) → Type 0
Apart words dir va other =
    (dir_slot dir other ≢ pte_of words dir va) × (pte_of words dir other ≢ pte_of words dir va)

module _ (words : ℕ → ℕ) (dir va e : ℕ) (h : HasTable words dir va) where
  update-dir_slot : update words (pte_of words dir va) e (dir_slot dir va) ≡ words (dir_slot dir va)
  update-dir_slot = rw (dir_slot-apart words dir va h) refl

  update-pte_of : pte_of (update words (pte_of words dir va) e) dir va ≡ pte_of words dir va
  update-pte_of = ap (λ d. slot (frame_of d) (ptx va)) update-dir_slot

  HasTable-update : HasTable (update words (pte_of words dir va) e) dir va
  HasTable-update =
      subst
        (λ d. (dir < npages) × (is_present d ≡ true) × (frame_of d < npages) × (frame_of d ≢ dir))
        (sym update-dir_slot) h

  update-there : update words (pte_of words dir va) e (pte_of words dir va) ≡ e
  update-there = rw (eq→== (pte_of words dir va) (pte_of words dir va) refl) refl

  translate-there :
      is_present e ≡ true
      → translate (update words (pte_of words dir va) e) dir va
        ≡ some (frame_of e * page_size + va % page_size)
  translate-there present =
      translate-some (update words (pte_of words dir va) e) dir va (words (dir_slot dir va)) e
        update-dir_slot update-there h.1 present

  translate-gone :
      is_present e ≡ false → translate (update words (pte_of words dir va) e) dir va ≡ none
  translate-gone absent =
      let there : update words (pte_of words dir va) e
            (pte_of (update words (pte_of words dir va) e) dir va)
          ≡ e =
        ap (update words (pte_of words dir va) e) update-pte_of ∙ update-there in
      rw (ap is_present update-dir_slot ∙ h.1, ap is_present there ∙ absent) refl

  found-there :
      (p : Page)
      → frame_of e ≡ frame p
      → IsPage p
      → ◌≡◌ {A = Page × ℕ}
          (
            page_at (
                frame_of (
                  update words
                    (pte_of words dir va)
                    e
                    (pte_of (update words (pte_of words dir va) e) dir va))),
            pte_of (update words (pte_of words dir va) e) dir va,
          )
          (p, pte_of words dir va)
  found-there p f v =
      let w = update words (pte_of words dir va) e in
      let pte = pte_of words dir va in
      ap (λ i. (page_at (frame_of (w i)), i)) update-pte_of
      ∙ ap (λ x. (page_at (frame_of x), pte)) update-there
      ∙ ap (λ q. (q, pte)) (rw f (omega (arith, v)))

  translate-Apart :
      (other : ℕ)
      → Apart words dir va other
      → translate (update words (pte_of words dir va) e) dir other ≡ translate words dir other
  translate-Apart other o =
      rw
        (
          ne→==_false (dir_slot dir other) (pte_of words dir va) o.0,
          ne→==_false (pte_of words dir other) (pte_of words dir va) o.1,
        )
        refl

-- After page_insert: the counts and the free list, what page_lookup finds at `va`, what the
-- processor makes of it, and that the addresses that go through other entries lead where they led.
pub record Inserts (dir : ℕ) (p : Page) (va perm : ℕ) (xs : List Page) (m : Vm) : Type 0 where
  pub out : Vm
  pub ends : page_insert dir p va perm m ≡ ok 0 out
  pub refs : out.refs ≡ update (left_refs dir p va m) p (inc16 (left_refs dir p va m p))
  pub free : FreeList out (left_free dir p va m xs)
  pub finds : page_lookup dir va out ≡ ok (some (p, pte_of m.words dir va)) out
  pub leads : translate out.words dir va ≡ some (frame p * page_size + va % page_size)
  pub others :
      (other : ℕ)
      → Apart m.words dir va other
      → translate out.words dir other ≡ translate m.words dir other

-- Where the directory has a table for va, the permissions are below 4096, and the page that the
-- old entry names, mapped or not, is a page and is not on the free list, page_insert returns 0.
-- Then page_lookup at va finds the page and its entry, the address leads into the page, the
-- addresses that go through other entries lead where they led, the page that another one
-- replaces loses a reference and goes on the free list when it was the last, and the count of
-- the inserted page is one up from there, also when it was at va before.
pub page_insert-Inserts :
    (dir : ℕ) (p : Page) (va perm : ℕ) (xs : List Page) (m : Vm)
    → HasTable m.words dir va
    → IsPage p
    → perm < page_size
    → IsPage (old_page dir va m)
    → has (old_page dir va m) xs ≡ false
    → FreeList m xs
    → Inserts dir p va perm xs m
page_insert-Inserts dir p va perm xs m h v b q o l =
    let e = entry (frame p) perm in
    let facts = entry-facts (frame p) perm b in
    let out = inserted dir p va perm m in
    let w : out.words ≡ update m.words (pte_of m.words dir va) e =
      vacated-words dir p va perm m e in
    record {
      out = out;
      ends = page_insert-inserted dir p va perm m h (omega (arith, q)) v;
      refs = ap (λ r. update r p (inc16 (r p))) (vacated-refs dir p va perm m);
      free = vacated-free dir p va perm m xs q o l;
      finds =
          page_lookup-some dir va out
            (subst (λ z. HasTable z dir va) (sym w) (HasTable-update m.words dir va e h))
          ∙ ap (λ z. ok (some (page_at (frame_of (z (pte_of z dir va))), pte_of z dir va)) out) w
          ∙ ap (λ r. ok (some r) out) (found-there m.words dir va e h p facts.1 v);
      leads =
          ap (λ z. translate z dir va) w
          ∙ translate-there m.words dir va e h facts.0
          ∙ ap (λ f. some (f * page_size + va % page_size)) facts.1;
      others = λ other o'.
          ap (λ z. translate z dir other) w ∙ translate-Apart m.words dir va e h other o';
    }

-- page_remove of a mapped page: the entry is 0, and the page loses a reference.
pub record Removes (dir va : ℕ) (xs : List Page) (m : Vm) : Type 0 where
  pub out : Vm
  pub ends : page_remove dir va m ≡ ok tt out
  pub unmapped : translate out.words dir va ≡ none
  pub others :
      (other : ℕ)
      → Apart m.words dir va other
      → translate out.words dir other ≡ translate m.words dir other
  pub refs : out.refs ≡ update m.refs (old_page dir va m) (dec16 (m.refs (old_page dir va m)))
  pub free :
      FreeList out (if dec16 (m.refs (old_page dir va m)) == 0 then old_page dir va m ∷ xs else xs)

-- Where the directory has a table for va, and the page that the entry names is not on the free
-- list, page_remove ends: the address leads nowhere, the addresses that go through other
-- entries lead where they led, and the page loses a reference and goes on top of the free list
-- when it was the last.
pub page_remove-Removes :
    (dir va : ℕ) (xs : List Page) (m : Vm)
    → HasTable m.words dir va
    → IsPage (old_page dir va m)
    → has (old_page dir va m) xs ≡ false
    → FreeList m xs
    → Removes dir va xs m
page_remove-Removes dir va xs m h q o l =
    let p = old_page dir va m in
    let pte = pte_of m.words dir va in
    let w : (removed dir va m).words ≡ update m.words pte 0 =
      after_drop-words (dec16 (m.refs p) == 0) p (with_word pte 0 m) in
    record {
      out = removed dir va m;
      ends = page_remove-removed dir va m h (omega (arith, q));
      unmapped = ap (λ z. translate z dir va) w ∙ translate-gone m.words dir va 0 h refl;
      others = λ other o'.
          ap (λ z. translate z dir other) w ∙ translate-Apart m.words dir va 0 h other o';
      refs = after_drop-refs (dec16 (m.refs p) == 0) p (with_word pte 0 m);
      free = FreeList-after_drop p xs (with_word pte 0 m) q o l;
    }

pub record Freed (dir va : ℕ) (m : Vm) : Type 0 where
  pub out : Vm
  pub ends : page_remove dir va m ≡ ok tt out
  pub first : out.free_list ≡ page_at 0
  pub uncounted : out.refs (page_at 0) ≡ 0

-- Where the directory has a table for va with an entry that is 0, and page 0 has the count 1
-- that page_init gives it, page_remove puts page 0 on top of the free list with the count 0.
pub page_remove-unmapped :
    (dir va : ℕ) (m : Vm)
    → HasTable m.words dir va
    → m.words (pte_of m.words dir va) ≡ 0
    → m.refs (page_at 0) ≡ 1
    → Freed dir va m
page_remove-unmapped dir va m h z r =
    let pte = pte_of m.words dir va in
    let left = λ (e : ℕ).
      let q = page_at (frame_of e) in after_drop (dec16 (m.refs q) == 0) q (with_word pte 0 m) in
    let last : (dec16 (m.refs (page_at 0)) == 0) ≡ true = ap (λ n. dec16 n == 0) r in
    record {
      out = removed dir va m;
      ends = page_remove-removed dir va m h (rw z (omega arith));
      first = ap (λ e. (left e).free_list) z ∙ rw last refl;
      uncounted = ap (λ e. (left e).refs (page_at 0)) z ∙ rw last (rw r refl);
    }

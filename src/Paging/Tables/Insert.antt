-- ===== src/Paging/Tables/Insert.antt =====
-- What page_insert does to the entry, to the counts and to the rest of the address space.
use sebopesyslab.Base.{
  ℕ, ◌<◌, ◌≡◌, refl, ap, ◌∙◌, fun_ext, Bool, true, false, arith, ◌==◌, ◌&&◌, if◌then◌else◌, List,
  ◌∷◌, Bool-cases, inl, inr, not, has,
}
use sebopesyslab.Base.Action.{ok, pure, and_then, ◌>>◌}
use sebopesyslab.Kernel.{update}
use sebopesyslab.Paging.{Vm, Page, npages, mem_words, store, is_present, frame_of, page_at, frame}
use sebopesyslab.Paging.Pool.{page_incref, dec16}
use sebopesyslab.Paging.Pool.FreeList.{
  FreeList, FreeList-after_drop, IsPage, counted, page_incref-counted, after_drop,
  page_decref-after_drop,
}
use sebopesyslab.Paging.Tables.{page_remove, page_insert, entry}
use sebopesyslab.Paging.Tables.Walk.{
  dir_slot, pte_of, HasTable, load-ok, store-ok, slot-bound, pgdir_walk-some, page_lookup-some,
}

abbrev pub with_word : ℕ → ℕ → Vm → Vm
with_word i e m = record m { words = update m.words i e }

-- Without the page whose entry was at `va`.
abbrev pub removed : (dir va : ℕ) → Vm → Vm
removed dir va m =
    let pte = pte_of m.words dir va in
    let q = page_at (frame_of (m.words pte)) in
    after_drop (dec16 (m.refs q) == 0) q (with_word pte 0 m)

pub page_remove-removed :
    (dir va : ℕ) (m : Vm)
    → HasTable m.words dir va
    → frame_of (m.words (pte_of m.words dir va)) < npages
    → page_remove dir va m ≡ ok tt (removed dir va m)
unfolding page_remove
page_remove-removed dir va m h b =
    let pte = pte_of m.words dir va in
    rw
      (
        page_lookup-some dir va m h,
        store-ok pte 0 m (slot-bound (frame_of (m.words (dir_slot dir va))) va h.2).1,
      )
      (page_decref-after_drop (page_at (frame_of (m.words pte))) (with_word pte 0 m)
        (omega (arith, b)))

-- Before the entry is written: the old page is removed, if there is one and it is another one.
abbrev pub vacated : (dir : ℕ) (p : Page) (va perm : ℕ) → Vm → Vm
vacated dir p va perm m =
    let pte = pte_of m.words dir va in
    let old = m.words pte in
    if is_present old
    then (if frame_of old == frame p
        then with_word pte (entry (frame p) perm) m
        else removed dir va m)
    else m

abbrev pub inserted : (dir : ℕ) (p : Page) (va perm : ℕ) → Vm → Vm
inserted dir p va perm m =
    counted p (with_word (pte_of m.words dir va) (entry (frame p) perm) (vacated dir p va perm m))

module _ (dir : ℕ) (p : Page) (va perm : ℕ) (m : Vm) (h : HasTable m.words dir va) where
  abbrev the_pte : ℕ
  the_pte = pte_of m.words dir va

  abbrev old_entry : ℕ
  old_entry = m.words the_pte

  the_pte-bound : the_pte < mem_words
  the_pte-bound = (slot-bound (frame_of (m.words (dir_slot dir va))) va h.2).1

  page_insert-vacated :
      frame_of old_entry < npages
      → (if is_present old_entry
            then (if frame_of old_entry == frame p
                then store the_pte (entry (frame p) perm)
                else page_remove dir va)
            else pure tt)
          m
        ≡ ok tt (vacated dir p va perm m)
  page_insert-vacated b = elim (Bool-cases (is_present old_entry)) [
    | inr absent ↦ rw absent refl
    | inl present ↦ elim (Bool-cases (frame_of old_entry == frame p)) [
      | inl same ↦ rw (present, same) (store-ok the_pte (entry (frame p) perm) m the_pte-bound)
      | inr other ↦ rw (present, other) (page_remove-removed dir va m h b)
    ]
  ]

  pub page_insert-inserted :
      frame_of old_entry < npages
      → IsPage p
      → page_insert dir p va perm m ≡ ok 0 (inserted dir p va perm m)
  unfolding page_insert
  page_insert-inserted b v =
      let e = entry (frame p) perm in
      let before = vacated dir p va perm m in
      rw (pgdir_walk-some dir va true m h, load-ok the_pte m the_pte-bound)
        (ap (λ r. and_then r (λ _. store the_pte e >> (page_incref p >> pure 0)))
            (page_insert-vacated b)
          ∙ rw
              (
                store-ok the_pte e before the_pte-bound,
                page_incref-counted p (with_word the_pte e before) v,
              )
              refl)

-- Another page was there, which loses this reference.
abbrev pub replaces : (dir : ℕ) (p : Page) (va : ℕ) → Vm → Bool
replaces dir p va m =
    let old = m.words (pte_of m.words dir va) in is_present old && not (frame_of old == frame p)

abbrev pub old_page : (dir va : ℕ) → Vm → Page
old_page dir va m = page_at (frame_of (m.words (pte_of m.words dir va)))

abbrev pub left_refs : (dir : ℕ) (p : Page) (va : ℕ) → Vm → (Page → ℕ)
left_refs dir p va m =
    let q = old_page dir va m in
    if replaces dir p va m then update m.refs q (dec16 (m.refs q)) else m.refs

abbrev pub left_free : (dir : ℕ) (p : Page) (va : ℕ) → Vm → List Page → List Page
left_free dir p va m xs =
    let q = old_page dir va m in if replaces dir p va m && dec16 (m.refs q) == 0 then q ∷ xs else xs

update_twice : (i a b : ℕ) (f : ℕ → ℕ) → update (update f i a) i b ≡ update f i b
update_twice i a b f = fun_ext (λ k. ground (arith))

pub after_drop-words : (last : Bool) (p : Page) (m : Vm) → (after_drop last p m).words ≡ m.words
after_drop-words true p m = refl
after_drop-words false p m = refl

pub after_drop-refs :
    (last : Bool) (p : Page) (m : Vm)
    → (after_drop last p m).refs ≡ update m.refs p (dec16 (m.refs p))
after_drop-refs true p m = refl
after_drop-refs false p m = refl

module _ (dir : ℕ) (p : Page) (va perm : ℕ) (m : Vm) where
  pub vacated-words :
      (e : ℕ)
      → update (vacated dir p va perm m).words (pte_of m.words dir va) e
        ≡ update m.words (pte_of m.words dir va) e
  vacated-words e =
      let pte = pte_of m.words dir va in
      let old = m.words pte in
      elim (Bool-cases (is_present old)) [
        | inr absent ↦ rw absent refl
        | inl present ↦ elim (Bool-cases (frame_of old == frame p)) [
          | inl same ↦ rw (present, same) (update_twice pte (entry (frame p) perm) e m.words)
          | inr other ↦
              rw
                (
                  present,
                  other,
                  after_drop-words (dec16 (m.refs (old_page dir va m)) == 0) (old_page dir va m)
                      (with_word pte 0 m),
                )
                (update_twice pte 0 e m.words)
        ]
      ]

  pub vacated-refs : (vacated dir p va perm m).refs ≡ left_refs dir p va m
  vacated-refs =
      let pte = pte_of m.words dir va in
      let old = m.words pte in
      elim (Bool-cases (is_present old)) [
        | inr absent ↦ rw absent refl
        | inl present ↦ elim (Bool-cases (frame_of old == frame p)) [
          | inl same ↦ rw (present, same) refl
          | inr other ↦
              rw (present, other)
                (after_drop-refs (dec16 (m.refs (old_page dir va m)) == 0) (old_page dir va m)
                  (with_word pte 0 m))
        ]
      ]

  pub vacated-free :
      (xs : List Page)
      → IsPage (old_page dir va m)
      → has (old_page dir va m) xs ≡ false
      → FreeList m xs
      → FreeList (vacated dir p va perm m) (left_free dir p va m xs)
  vacated-free xs v o h =
      let pte = pte_of m.words dir va in
      let old = m.words pte in
      elim (Bool-cases (is_present old)) [
        | inr absent ↦ rw absent h
        | inl present ↦ elim (Bool-cases (frame_of old == frame p)) [
          | inl same ↦ rw (present, same) h
          | inr other ↦
              rw (present, other)
                (FreeList-after_drop (old_page dir va m) xs (with_word pte 0 m) v o h)
        ]
      ]

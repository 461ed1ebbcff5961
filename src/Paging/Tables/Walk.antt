-- ===== src/Paging/Tables/Walk.antt =====
-- The entry that pgdir_walk finds, and the accesses through it.
use sebopesyslab.Base.{
  ℕ, ◌+◌, ◌*◌, ◌%◌, ◌<◌, ◌≡◌, ◌≢◌, refl, Bool, true, false, arith, ◌==◌, ◌&&◌, ltb, some, bit_or,
  lt→ltb, eq→==, ne→==_false,
}
use sebopesyslab.Base.Finite.{all_below, below_of_all}
use sebopesyslab.Base.Action.{ok}
use sebopesyslab.Kernel.{update}
use sebopesyslab.Paging.{
  Vm, npages, page_size, mem_words, slot, load, store, pdx, ptx, is_present, frame_of, page_at,
  translate,
}
use sebopesyslab.Paging.Tables.{pgdir_walk, page_lookup, entry}

-- The entry of the directory, and the index of the entry in the table to which it leads
abbrev pub dir_slot : (dir va : ℕ) → ℕ
dir_slot dir va = slot dir (pdx va)

abbrev pub pte_of : (ℕ → ℕ) → (dir va : ℕ) → ℕ
pte_of words dir va = slot (frame_of (words (dir_slot dir va))) (ptx va)

-- The directory has a table for `va`, in the memory, which is not the directory.
abbrev pub HasTable : (ℕ → ℕ) → (dir va : ℕ) → Type 0
HasTable words dir va =
    (dir < npages)
    × (is_present (words (dir_slot dir va)) ≡ true)
    × (frame_of (words (dir_slot dir va)) < npages)
    × (frame_of (words (dir_slot dir va)) ≢ dir)

pub load-ok : (i : ℕ) (m : Vm) → i < mem_words → load i m ≡ ok (m.words i) m
unfolding load
load-ok i m h = rw (lt→ltb i mem_words h) refl

pub store-ok :
    (i e : ℕ) (m : Vm)
    → i < mem_words
    → store i e m ≡ ok tt (record m { words = update m.words i e })
unfolding store
store-ok i e m h = rw (lt→ltb i mem_words h) refl

pub slot-bound :
    (f va : ℕ) → f < npages → (slot f (pdx va) < mem_words) × (slot f (ptx va) < mem_words)
slot-bound f va h = (omega (arith, h), omega (arith, h))

pub pgdir_walk-some :
    (dir va : ℕ) (create : Bool) (m : Vm)
    → HasTable m.words dir va
    → pgdir_walk dir va create m ≡ ok (some (pte_of m.words dir va)) m
unfolding pgdir_walk
pgdir_walk-some dir va create m h =
    rw (load-ok (dir_slot dir va) m (slot-bound dir va h.0).0, h.1) refl

pub page_lookup-some :
    (dir va : ℕ) (m : Vm)
    → HasTable m.words dir va
    → page_lookup dir va m
      ≡ ok (some (page_at (frame_of (m.words (pte_of m.words dir va))), pte_of m.words dir va)) m
unfolding page_lookup
page_lookup-some dir va m h =
    rw
      (
        pgdir_walk-some dir va false m h,
        load-ok (pte_of m.words dir va) m
            (slot-bound (frame_of (m.words (dir_slot dir va))) va h.2).1,
      )
      refl

attributes_ok : ℕ → Bool
attributes_ok perm = is_present (bit_or perm 1) && ltb (bit_or perm 1) page_size

all_attributes : all_below page_size attributes_ok ≡ true
unfolding attributes_ok all_below
all_attributes = refl

attributes-facts :
    (perm : ℕ) → perm < page_size → (bit_or perm 1 % 2 ≡ 1) × (bit_or perm 1 < page_size)
unfolding attributes_ok
attributes-facts perm h =
    let both : attributes_ok perm ≡ true =
      below_of_all page_size attributes_ok all_attributes perm h in
    ground (arith, both)

-- The permissions leave the address alone.
pub entry-facts :
    (f perm : ℕ)
    → perm < page_size
    → (is_present (entry f perm) ≡ true) × (frame_of (entry f perm) ≡ f)
entry-facts f perm h =
    let a = attributes-facts perm h in
    (eq→== (entry f perm % 2) 1 (omega (arith, a)), omega (arith, a))

-- The directory leads to the same tables when only an entry of a table has changed.
pub dir_slot-apart :
    (words : ℕ → ℕ) (dir va : ℕ)
    → HasTable words dir va
    → (dir_slot dir va == pte_of words dir va) ≡ false
dir_slot-apart words dir va h =
    ne→==_false (dir_slot dir va) (pte_of words dir va) (omega (arith, h.3))

-- A walk that finds both entries.
pub translate-some :
    (words : ℕ → ℕ) (dir va d e : ℕ)
    → words (slot dir (pdx va)) ≡ d
    → words (slot (frame_of d) (ptx va)) ≡ e
    → is_present d ≡ true
    → is_present e ≡ true
    → translate words dir va ≡ some (frame_of e * page_size + va % page_size)
translate-some words dir va d e hd he pd pe = rw (hd, pd, he, pe) refl

-- ===== src/Paging/EntryMap.antt =====
-- The tables of kernel/src/paging/entrypgdir.c, under which the kernel starts: the linker places
-- entry_pgdir in the frame `dir` and entry_pgtable in the frame `table`.
use sebopesyslab.Base.{
  ℕ, ◌+◌, ◌-◌, ◌*◌, ◌%◌, ◌^◌, ◌<◌, ◌≡◌, ◌≢◌, refl, sym, ap, ◌∙◌, true, arith, ◌==◌, if◌then◌else◌,
  ltb, Option, none, some, eq→==, Bool-cases, inl, inr,
}
use sebopesyslab.Scheduler.{kernbase}
use sebopesyslab.Paging.{
  Vm, nr_pte, page_size, slot, range, pdx, ptx, is_present, frame_of, translate,
}
use sebopesyslab.Base.Action.{Outcome, ok, fault}
use sebopesyslab.Paging.Boot.{init_kern_pgdir, kern_pdx}
use sebopesyslab.Paging.Tables.Walk.{translate-some}
use sebopesyslab.Paging.Boot.KernelMap.{Placed, init_kern_pgdir-KernelMap}

-- Element `i` of entry_pgtable: `i * 0x1000 | PTE_P | PTE_W`
abbrev pub entry_pgtable : ℕ → ℕ
entry_pgtable i = i * 0x1000 + 3

-- Element `i` of entry_pgdir; those that are not named are 0.
abbrev pub entry_pgdir : (table i : ℕ) → ℕ
entry_pgdir table i =
    if i == 0 then table * page_size + 1 else if i == kern_pdx then table * page_size + 1 + 2 else 0

-- The memory with the two arrays in it.
abbrev pub entry_words : (dir table : ℕ) → (ℕ → ℕ) → (ℕ → ℕ)
entry_words dir table words =
    range nr_pte (slot dir 0) (entry_pgdir table) 0
      (range nr_pte (slot table 0) entry_pgtable 0 words)

-- The physical address at which the entry map puts a linear address.
abbrev pub entry_target : ℕ → Option ℕ
entry_target va =
    if ltb va (nr_pte * page_size)
    then some va
    else if ltb va kernbase
    then none
    else if ltb va (kernbase + nr_pte * page_size)
    then some (va - kernbase)
    else none

entry_words-dir :
    (dir table i : ℕ) (words : ℕ → ℕ)
    → i < nr_pte
    → entry_words dir table words (slot dir i) ≡ entry_pgdir table i
entry_words-dir dir table i words b = ground (arith, b)

entry_words-table :
    (dir table i : ℕ) (words : ℕ → ℕ)
    → dir ≢ table
    → i < nr_pte
    → entry_words dir table words (slot table i) ≡ entry_pgtable i
entry_words-table dir table i words o b = ground (arith, o, b)

entry_pgtable-facts :
    (i : ℕ) → (is_present (entry_pgtable i) ≡ true) × (frame_of (entry_pgtable i) ≡ i)
entry_pgtable-facts i = (eq→== (entry_pgtable i % 2) 1 (omega arith), omega arith)

module _ (dir table : ℕ) (words : ℕ → ℕ) (o : dir ≢ table) where
  -- An address whose entry of the directory leads to the table.
  entry-mapped :
      (va d : ℕ)
      → entry_pgdir table (pdx va) ≡ d
      → is_present d ≡ true
      → frame_of d ≡ table
      → translate (entry_words dir table words) dir va ≡ some (ptx va * page_size + va % page_size)
  entry-mapped va d e p f =
      let w = entry_words dir table words in
      let e' : w (slot dir (pdx va)) ≡ d =
        entry_words-dir dir table (pdx va) words (omega arith) ∙ e in
      let t : w (slot (frame_of d) (ptx va)) ≡ entry_pgtable (ptx va) =
        ap (λ z. w (slot z (ptx va))) f
        ∙ entry_words-table dir table (ptx va) words o (omega arith) in
      translate-some w dir va d (entry_pgtable (ptx va)) e' t p (entry_pgtable-facts (ptx va)).0
      ∙ ap (λ z. some (z * page_size + va % page_size)) (entry_pgtable-facts (ptx va)).1

  entry-unmapped :
      (va : ℕ)
      → entry_pgdir table (pdx va) ≡ 0
      → translate (entry_words dir table words) dir va ≡ none
  entry-unmapped va e = rw (entry_words-dir dir table (pdx va) words (omega arith) ∙ e) refl

pub entry_pgdir-target :
    (dir table va : ℕ) (words : ℕ → ℕ)
    → dir ≢ table
    → va < 2 ^ 32
    → translate (entry_words dir table words) dir va ≡ entry_target va
entry_pgdir-target dir table va words o b =
    let walk = λ (d : ℕ). entry-mapped dir table words o va d in
    elim (Bool-cases (ltb va (nr_pte * page_size))) [
      | inl low ↦ rw low (
          walk (table * page_size + 1) (ground (arith, low))
            (eq→== ((table * page_size + 1) % 2) 1 (omega arith)) (omega arith)
          ∙ ap (λ z. some z) (ground (arith, low)))
      | inr high ↦ elim (Bool-cases (ltb va kernbase)) [
        | inl user ↦
            rw (high, user) (entry-unmapped dir table words o va (ground (arith, high, user)))
        | inr kern ↦ elim (Bool-cases (ltb va (kernbase + nr_pte * page_size))) [
          | inl first ↦
              rw (high, kern, first)
                (walk (table * page_size + 3) (ground (arith, high, kern, first))
                    (eq→== ((table * page_size + 3) % 2) 1 (omega arith)) (omega arith)
                  ∙ ap (λ z. some z) (ground (arith, kern, first)))
          | inr above ↦
              rw (high, kern, above)
                (entry-unmapped dir table words o va (ground (arith, high, kern, above, b)))
        ]
      ]
    ]

state_of : {A : Type 0} → Vm → Outcome Vm A → Vm
state_of m (ok a s) = s
state_of m fault = m

-- For each of the first 4 MB above KERNBASE, the directory entry_pgdir and the directory that
-- init_kern_pgdir leaves lead to the same physical address, when the two arrays of each are
-- apart and those of init_kern_pgdir are in the memory.
pub entry_map-kernel_map :
    (dir table kdir ktable x : ℕ) (words : ℕ → ℕ) (m out : Vm)
    → dir ≢ table
    → Placed kdir ktable
    → init_kern_pgdir kdir ktable m ≡ ok kdir out
    → x < nr_pte * page_size
    → translate (entry_words dir table words) dir (kernbase + x)
      ≡ translate out.words kdir (kernbase + x)
unfolding state_of
entry_map-kernel_map dir table kdir ktable x words m out o h r b =
    let k = init_kern_pgdir-KernelMap kdir ktable m h in
    let same : k.out ≡ out = ap (λ z. state_of m z) (sym k.ends ∙ r) in
    entry_pgdir-target dir table (kernbase + x) words o (omega (arith, b))
    ∙ ground (arith, b)
    ∙ sym (k.maps x (omega (arith, b)))
    ∙ ap (λ z. translate z.words kdir (kernbase + x)) same

-- ===== src/Process/Create/Spaces.antt =====
-- A new process has the first PCB that is not in use, a page directory of its own, and the kernel's
-- map in it.
use sebopesyslab.Base.{
  ℕ, ◌+◌, ◌*◌, ◌%◌, ◌≤◌, ◌<◌, ◌≡◌, refl, ap, ◌∙◌, true, false, arith, ◌⊎◌, inl, inr, some, none,
  ◌||◌, ◌==◌, if◌then◌else◌, ltb, List, ◌∷◌, u32, ne→==_false, le→ltb_false,
}
use sebopesyslab.Base.Search.{IsFirst, first_from-IsFirst}
use sebopesyslab.Base.Action.{ok}
use sebopesyslab.Kernel.{Ptr, pcb_pool_max, Kernel, IsPcb, update}
use sebopesyslab.Queue.Rep.{Queues, Rep}
use sebopesyslab.Queue.Amend.{amend, store-amend, amend_self, amend_other, Rep-amend, Rep_globals}
use sebopesyslab.Paging.{
  Vm, Page, null, npages, nr_pte, frame, slot, page_size, mem_words, memcpy, range, translate, pdx,
  ptx, is_present, frame_of, is_repeated,
}
use sebopesyslab.Paging.Pool.{inc16}
use sebopesyslab.Paging.Pool.FreeList.{
  FreeList, Pops, page_alloc-Pops, counted, page_incref-counted,
}
use sebopesyslab.Process.Create.{Machine, pcb_create, find_unused, reserve, identify, next_pid}

-- The frame `f` is not among the four that a new directory at `x` overwrites.
abbrev pub Spared : Page → ℕ → Type 0
Spared x f = (f < frame x) ⊎ (frame x + 4 ≤ f)

pub memcpy-range :
    (dst src len : ℕ) (m : Vm)
    → dst + len ≤ mem_words
    → src + len ≤ mem_words
    → src + len ≤ dst
    → memcpy dst src len m ≡ ok tt (record m { words = range len dst m.words src m.words })
unfolding memcpy
memcpy-range dst src len m a b c =
    let apart : is_repeated dst src len ≡ false = ground (arith, c) in
    rw (le→ltb_false mem_words (dst + len) a, le→ltb_false mem_words (src + len) b, apart) refl

-- The words after the new directory has been cleared, and the kernel's copied into it.
abbrev copied : Page → (kern_pgdir : ℕ) → (ℕ → ℕ) → (ℕ → ℕ)
copied x kd words =
    let cleared = range page_size (slot (frame x) 0) (λ _. 0) 0 words in
    range page_size (slot (frame x) 0) cleared (slot kd 0) cleared

range-inside :
    (n i k : ℕ) (f : ℕ → ℕ) (j : ℕ) (words : ℕ → ℕ)
    → k < n
    → range n i f j words (i + k) ≡ f (j + k)
range-inside n i k f j words b =
    let there : (ltb (i + k) i || ltb (i + n) (i + k + 1)) ≡ false = ground (arith, b) in
    rw there (ap f (omega arith))

range-outside :
    (n i k : ℕ) (f : ℕ → ℕ) (j : ℕ) (words : ℕ → ℕ)
    → (k < i) ⊎ (i + n ≤ k)
    → range n i f j words k ≡ words k
range-outside n i k f j words o =
    let there : (ltb k i || ltb (i + n) (k + 1)) ≡ true = ground (arith, o) in rw there refl

outside :
    (x f i : ℕ)
    → Spared x f
    → i < nr_pte
    → (slot f i < slot (frame x) 0) ⊎ (slot (frame x) 0 + page_size ≤ slot f i)
outside x f i (inl l) b = inl (omega (arith, l, b))
outside x f i (inr r) b = inr (omega (arith, r, b))

copied-dir :
    (x : Page) (kd i : ℕ) (words : ℕ → ℕ)
    → Spared x kd
    → i < nr_pte
    → copied x kd words (slot (frame x) i) ≡ words (slot kd i)
copied-dir x kd i words s b =
    let start = slot (frame x) 0 in
    let cleared = range page_size start (λ _. 0) 0 words in
    let here : slot (frame x) i ≡ start + i = omega arith in
    let there : slot kd 0 + i ≡ slot kd i = omega arith in
    ap (range page_size start cleared (slot kd 0) cleared) here
    ∙ range-inside page_size start i cleared (slot kd 0) cleared (omega (arith, b))
    ∙ ap cleared there
    ∙ range-outside page_size start (slot kd i) (λ _. 0) 0 words (outside x kd i s b)

copied_elsewhere :
    (x : Page) (kd f i : ℕ) (words : ℕ → ℕ)
    → Spared x f
    → i < nr_pte
    → copied x kd words (slot f i) ≡ words (slot f i)
copied_elsewhere x kd f i words s b =
    let start = slot (frame x) 0 in
    let cleared = range page_size start (λ _. 0) 0 words in
    range-outside page_size start (slot f i) cleared (slot kd 0) cleared (outside x f i s b)
    ∙ range-outside page_size start (slot f i) (λ _. 0) 0 words (outside x f i s b)

-- Two walks that read the same entries.
translate-same :
    (w w' : ℕ → ℕ) (dir dir' va : ℕ)
    → w (slot dir (pdx va)) ≡ w' (slot dir' (pdx va))
    → w (slot (frame_of (w' (slot dir' (pdx va)))) (ptx va))
      ≡ w' (slot (frame_of (w' (slot dir' (pdx va)))) (ptx va))
    → translate w dir va ≡ translate w' dir' va
translate-same w w' dir dir' va d e =
    let walk = λ (d e : ℕ).
      if is_present d
      then (if is_present e then some (frame_of e * page_size + va % page_size) else none)
      else none in
    ap (λ z. walk z (w (slot (frame_of z) (ptx va)))) d ∙ ap (walk (w' (slot dir' (pdx va)))) e

find_unused-IsFirst :
    (k : Kernel) → IsFirst 0 pcb_pool_max (λ i. (k.pool (i + 1)).used == 0) (find_unused k)
unfolding find_unused
find_unused-IsFirst k =
    first_from-IsFirst pcb_pool_max 0 pcb_pool_max (λ i. (k.pool (i + 1)).used == 0) (omega arith)

-- What pcb_create leaves, when it takes page `x`.
pub record Created (x : Page) (xs : List Page) (q : Queues) (tf_pool kd image_end : ℕ) (m : Machine)
    : Type 0 where
  pub out : Machine
  pub ends : pcb_create tf_pool kd image_end m ≡ ok (find_unused m.kernel + 1) out
  pub pcb :
      out.kernel.pool (find_unused m.kernel + 1)
      ≡ identify m.kernel.pid x
          (reserve tf_pool (find_unused m.kernel) (m.kernel.pool (find_unused m.kernel + 1)))
  pub was_unused : ((m.kernel.pool (find_unused m.kernel + 1)).used == 0) ≡ true
  pub used_before : (j : ℕ) → j < find_unused m.kernel → ((m.kernel.pool (j + 1)).used == 0) ≡ false
  pub others :
      (a : Ptr) → (a == find_unused m.kernel + 1) ≡ false → out.kernel.pool a ≡ m.kernel.pool a
  pub lists : Rep out.kernel q
  pub free : FreeList out.vm xs
  pub refs : out.vm.refs ≡ update m.vm.refs x (inc16 (m.vm.refs x))
  pub same_map :
      (va : ℕ)
      → Spared x (frame_of (m.vm.words (slot kd (pdx va))))
      → translate out.vm.words (frame x) va ≡ translate m.vm.words kd va

module _ (x : Page) (xs : List Page) (q : Queues) (tf_pool kd image_end : ℕ) (m : Machine)
    (r : Rep m.kernel q) (h : FreeList m.vm (x ∷ xs)) (room : find_unused m.kernel < pcb_pool_max)
    (fits : frame x + 4 ≤ npages) (behind : image_end ≤ frame x) (source : kd + 4 ≤ image_end) where
  spared : Spared x kd
  spared = inl (omega (arith, behind, source))

  abbrev new_pcb : Ptr
  new_pcb = find_unused m.kernel + 1

  abbrev reserved : Kernel
  reserved = amend new_pcb (reserve tf_pool (find_unused m.kernel)) m.kernel

  abbrev identified : Kernel
  identified = amend new_pcb (identify m.kernel.pid x) reserved

  taken : Pops true x xs m.vm
  taken = page_alloc-Pops true x xs m.vm h (omega (arith, fits))

  abbrev held : Vm
  held = counted x taken.out

  abbrev final : Machine
  final = record {
    kernel = next_pid identified;
    vm = record held {
      words = range page_size (slot (frame x) 0) held.words (slot kd 0) held.words;
    };
  }

  pcb_create-final : pcb_create tf_pool kd image_end m ≡ ok new_pcb final
  unfolding pcb_create
  pcb_create-final =
      let i = find_unused m.kernel in
      let v : IsPcb new_pcb = (omega arith, omega (arith, room)) in
      rw
        (
          store-amend new_pcb (reserve tf_pool i) m.kernel v,
          taken.ends,
          ne→==_false x null (omega (arith, h.1)),
          le→ltb_false (frame x) image_end behind,
          store-amend new_pcb (identify m.kernel.pid x) reserved v,
          page_incref-counted x taken.out h.1,
          memcpy-range (slot (frame x) 0) (slot kd 0) page_size held (omega (arith, fits))
              (omega (arith, source, behind, fits)) (omega (arith, source, behind)),
        )
        refl

  -- When some PCB is not in use, the free list of pages is x and then xs, the four pages from x
  -- on are in the memory and behind the kernel's code and data, and the four from the kernel's
  -- directory on are among these, pcb_create takes the first unused PCB and page x: the PCB has
  -- the next number, no open files, no ticks and page x as its directory, the other PCBs, the
  -- lists of processes and the rest of the free list stay, and each address leads where it
  -- leads by the kernel's directory, unless its table is in the four pages.
  pub pcb_create-Created : Created x xs q tf_pool kd image_end m
  pcb_create-Created = record {
    out = final;
    ends = pcb_create-final;
    pcb =
        amend_self new_pcb (identify m.kernel.pid x) reserved
        ∙ ap (identify m.kernel.pid x)
            (amend_self new_pcb (reserve tf_pool (find_unused m.kernel)) m.kernel);
    was_unused = (find_unused-IsFirst m.kernel).passes room;
    used_before = λ j b. (find_unused-IsFirst m.kernel).none_before j (omega arith) b;
    others = λ a o.
        amend_other new_pcb (identify m.kernel.pid x) reserved a o
        ∙ amend_other new_pcb (reserve tf_pool (find_unused m.kernel)) m.kernel a o;
    lists =
        Rep_globals {k = identified} (u32 (identified.pid + 1)) identified.current identified.tick
          identified.count identified.cr3 identified.esp0
          (Rep-amend new_pcb (identify m.kernel.pid x)
            (Rep-amend new_pcb (reserve tf_pool (find_unused m.kernel)) r (λ c. refl) (λ c. refl))
            (λ c. refl) (λ c. refl));
    free = taken.popped.rest_free;
    refs = ap (λ z. update z x (inc16 (z x))) taken.popped.same_refs;
    same_map = λ va s.
        let w = m.vm.words in
        ap (λ z. translate (range page_size (slot (frame x) 0) z (slot kd 0) z) (frame x) va)
          taken.memory
        ∙ translate-same (copied x kd w) w (frame x) kd va
            (copied-dir x kd (pdx va) w spared (omega arith))
            (copied_elsewhere x kd (frame_of (w (slot kd (pdx va)))) (ptx va) w s (omega arith));
  }

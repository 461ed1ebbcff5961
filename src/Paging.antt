-- ===== src/Paging.antt =====
-- The state of kernel/src/paging/pmap.c: physical memory as 32-bit words, and `pages`, with
-- kernel/include/pmap.h and the macros of inc/mmu.h. A `struct PageInfo*` is a number: NULL is 0,
-- `&pages[i]` is i + 1. A page directory or table is the number of its frame, at
-- KADDR(frame << 12), and a `pte_t*` the index of a word.
pub mod Pool
pub mod Tables
pub mod Spaces
pub mod Boot
pub mod EntryMap
use sebopesyslab.Base.{
  ℕ, ◌+◌, ◌-◌, ◌*◌, ◌/◌, ◌%◌, ◌^◌, Option, none, some, Bool, ◌==◌, ◌||◌, ◌&&◌, ltb, if◌then◌else◌,
  u32, ◌>>>◌,
}
use sebopesyslab.Base.Action.{Outcome, Action, ok, fault, pure, modify}
use sebopesyslab.Kernel.{update}

-- (1<<15), the 128 MB of PHY_MEM
abbrev pub npages : ℕ
npages = 0x8000

-- NPTENTRIES and NPDENTRIES
abbrev pub nr_pte : ℕ
nr_pte = 1024

abbrev pub page_size : ℕ
page_size = 4096

abbrev pub mem_words : ℕ
mem_words = npages * nr_pte

abbrev pub Page : Type 0
Page = ℕ

abbrev pub null : Page
null = 0

-- `words` holds the physical memory; `refs` and `links` the `pp_ref`, a uint16_t, and `pp_link` of
-- each element of `pages`.
pub record Vm : Type 0 where
  pub words : ℕ → ℕ
  pub refs : Page → ℕ
  pub links : Page → Page
  pub free_list : Page

-- PDX, PTX and PGNUM
abbrev pub pdx : ℕ → ℕ
pdx la = la / 2 ^ 22 % 2 ^ 10

abbrev pub ptx : ℕ → ℕ
ptx la = la / 2 ^ 12 % 2 ^ 10

abbrev pub pgnum : ℕ → ℕ
pgnum la = la / 2 ^ 12

-- `e & PTE_P`, PTE_ADDR(e) >> 12 and PTE_ATTR(e)
abbrev pub is_present : ℕ → Bool
is_present e = e % 2 == 1

abbrev pub frame_of : ℕ → ℕ
frame_of e = e / page_size

abbrev pub attr_of : ℕ → ℕ
attr_of e = e % page_size

-- page2pa(p) >> 12
abbrev pub frame : Page → ℕ
frame p = p - 1

-- pa2page, from the number of the frame; it only prints a message when that is out of range.
abbrev pub page_at : ℕ → Page
page_at f = f + 1

-- Word `i` of a frame.
abbrev pub slot : (f i : ℕ) → ℕ
slot f i = f * nr_pte + i

abbrev pub not_page : Page → Bool
not_page p = p == null || ltb npages p

-- `*pte` and an assignment to it, through the kernel's map of the physical memory
unfoldable pub load : ℕ → Action Vm ℕ
load i m = if ltb i mem_words then ok (m.words i) m else fault

unfoldable pub store : ℕ → ℕ → Action Vm (Unit {0})
store i e m = if ltb i mem_words then ok tt (record m { words = update m.words i e }) else fault

-- `n` words from `i` on get the values that `f` has from `j` on.
abbrev pub range : (n i : ℕ) → (f : ℕ → ℕ) (j : ℕ) → (ℕ → ℕ) → (ℕ → ℕ)
range n i f j words k = if ltb k i || ltb (i + n) (k + 1) then words k else f (j + (k - i))

-- memset and memcpy of kernel/include/common.h, by `rep stosl` and `rep movsl`: `len` counts words.
unfoldable pub memset : (i value len : ℕ) → Action Vm (Unit {0})
memset i value len m =
    if ltb mem_words (i + len)
    then fault
    else ok tt (record m { words = range len i (λ _. value) 0 m.words })

-- Words are copied one after the other, so that a source whose end the target overlaps is repeated.
abbrev pub is_repeated : (dst src len : ℕ) → Bool
is_repeated dst src len = ltb src dst && ltb dst (src + len)

unfoldable pub memcpy : (dst src len : ℕ) → Action Vm (Unit {0})
memcpy dst src len m =
    if ltb mem_words (dst + len) || ltb mem_words (src + len)
    then fault
    else if is_repeated dst src len
    then ok tt (record m {
      words = range len dst (λ j. m.words (src + (j - src) % (dst - src))) src m.words;
    })
    else ok tt (record m { words = range len dst m.words src m.words })

-- What the processor's page walk makes of a linear address.
abbrev pub translate : (ℕ → ℕ) → (dir va : ℕ) → Option ℕ
translate words dir va =
    let d = words (slot dir (pdx va)) in
    let e = words (slot (frame_of d) (ptx va)) in
    if is_present d
    then (if is_present e then some (frame_of e * page_size + va % page_size) else none)
    else none

-- ===== src/Tests/Births.antt =====
-- The theorems on new processes at the state of States, with some free pages.
use sebopesyslab.Base.Search.{first_from}
use sebopesyslab.Base.{◌≡◌, refl, arith, [], ◌∷◌, ◌==◌, if◌then◌else◌}
use sebopesyslab.Paging.{Vm}
use sebopesyslab.Paging.Pool.FreeList.{FreeList}
use sebopesyslab.Process.Create.{Machine, find_unused}
use sebopesyslab.Process.Create.Spaces.{Created, pcb_create-Created}
use sebopesyslab.Tests.States.{empty, no_lists, Rep-empty}

abbrev pages : Vm
pages = record {
  words = λ i. if i == 2048 then 0x3003 else 0;
  refs = λ p. 0;
  links = λ p. if p == 11 then 13 else 0;
  free_list = 11;
}

abbrev machine : Machine
machine = record { kernel = empty 9; vm = pages }

-- Process number 4 is the first that is not in use.
first_unused : find_unused (empty 9) ≡ 3
unfolding find_unused first_from
first_unused = refl

pages-FreeList : FreeList pages (11 ∷ 13 ∷ [])
pages-FreeList =
    (refl, (omega arith, omega arith), refl, (refl, (omega arith, omega arith), refl, refl))

pcb_create-Created_example : Created 11 (13 ∷ []) no_lists 0xc020_0000 2 8 machine
pcb_create-Created_example =
    pcb_create-Created 11 (13 ∷ []) no_lists 0xc020_0000 2 8 machine (Rep-empty 9) pages-FreeList
      (omega (arith, first_unused)) (omega arith) (omega arith) (omega arith)

-- ===== src/Paging/Pool.antt =====
-- page_alloc, page_free and page_decref of kernel/src/paging/pmap.c.
pub mod FreeList
pub mod Clearing
use sebopesyslab.Base.{ℕ, ◌+◌, ◌-◌, ◌*◌, ◌%◌, ◌^◌, Bool, ◌==◌, if◌then◌else◌}
use sebopesyslab.Base.Action.{Action, pure, get, modify, refuse, ◌>>=◌, ◌>>◌}
use sebopesyslab.Kernel.{update}
use sebopesyslab.Paging.{Vm, Page, null, not_page, frame, slot, page_size, memset}

-- `pp_ref` is a uint16_t.
abbrev pub inc16 : ℕ → ℕ
inc16 n = (n + 1) % 2 ^ 16

abbrev pub dec16 : ℕ → ℕ
dec16 n = (n + 2 ^ 16 - 1) % 2 ^ 16

abbrev pub set_ref : Page → ℕ → Action Vm (Unit {0})
set_ref p n = modify (λ m. record m { refs = update m.refs p n })

abbrev pub set_link : Page → Page → Action Vm (Unit {0})
set_link p q = modify (λ m. record m { links = update m.links p q })

abbrev pub set_free_list : Page → Action Vm (Unit {0})
set_free_list p = modify (λ m. record m { free_list = p })

-- A page of `pages`, or the access is refused.
abbrev pub check : Page → Action Vm (Unit {0})
check p = if not_page p then refuse else pure tt

-- `alloc_flags` is ALLOC_ZERO, or 0.
pub page_alloc : (zeroed : Bool) → Action Vm Page
page_alloc zeroed = do
  m ← get
  let p = m.free_list
  if p == null then pure null else do
    check p
    if zeroed then memset (slot (frame p) 0) 0 page_size else pure tt
    set_free_list (m.links p)
    set_link p null
    pure p

pub page_free : Page → Action Vm (Unit {0})
page_free p = do check p; m ← get; set_link p m.free_list; set_free_list p

pub page_decref : Page → Action Vm (Unit {0})
page_decref p = do
  check p
  m ← get
  set_ref p (dec16 (m.refs p))
  if dec16 (m.refs p) == 0 then page_free p else pure tt

-- `p -> pp_ref ++`
pub page_incref : Page → Action Vm (Unit {0})
page_incref p = do check p; m ← get; set_ref p (inc16 (m.refs p))

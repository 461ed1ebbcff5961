-- ===== src/Queue/Relinks.antt =====
-- What a list operation leaves alone: everything but the head `l` and the links of the PCBs `s`.
use sebopesyslab.Base.{
  ◌≡◌, refl, ◌≢◌, true, false, inl, inr, List, arith, ◌==◌, has, ◌∙◌, Bool-cases,
}
use sebopesyslab.Kernel.Run.{ok}
use sebopesyslab.Queue.{set_next}
use sebopesyslab.Queue.Chain.{store-ok}
use sebopesyslab.Kernel.{
  IsPcb, Ptr, null, Pcb, Kernel, Place, head, set_head, set_pcb, ready_place, sleep_place, block,
  join,
}

-- A PCB without its links.
abbrev pub payload : Pcb → Pcb
payload c = record c { next = null; join_list = null }

-- A kernel without its PCBs and lists.
abbrev pub globals : Kernel → Kernel
globals k = record k {
  pool = λ p. payload (k.pool p);
  sems = λ s. record (k.sems s) { block_list = null };
  ready_list = null;
  sleep_list = null;
}

pub record Relinks (l : Place) (s : List Ptr) (k k' : Kernel) : Type 0 where
  pub heads : (m : Place) → m ≢ l → head m k' ≡ head m k
  pub links : (a : Ptr) → has a s ≡ false → (k'.pool a).next ≡ (k.pool a).next
  pub data_kept : globals k' ≡ globals k

-- `p->next = q`
unfoldable pub link : Ptr → Ptr → Kernel → Kernel
link p q k = set_pcb p (record (k.pool p) { next = q }) k

module _ (p q : Ptr) (k : Kernel) where
  pub head-link : (m : Place) → head m (link p q k) ≡ head m k
  unfolding link
  head-link ready_place = refl
  head-link sleep_place = refl
  head-link (block s) = refl
  head-link (join a) = ground arith

  pub next-link_ne : (a : Ptr) → (a == p) ≡ false → ((link p q k).pool a).next ≡ (k.pool a).next
  unfolding link
  next-link_ne a e = ground arith

  pub next-link_self : ((link p q k).pool p).next ≡ q
  unfolding link
  next-link_self = ground arith

  payload-link : (a : Ptr) → payload ((link p q k).pool a) ≡ payload (k.pool a)
  unfolding link
  payload-link a = ground arith

  pub globals-link : globals (link p q k) ≡ globals k
  unfolding link
  globals-link = λ i. record (globals k) { pool = λ a. payload-link a i }

module _ (l : Place) (q : Ptr) (k : Kernel) where
  pub head-set_head_self : head l (set_head l q k) ≡ q
  head-set_head_self = elim l as (λ m. head m (set_head m q k) ≡ q) [
    | ready_place ↦ refl
    | sleep_place ↦ refl
    | block s ↦ ground arith
    | join a ↦ ground arith
  ]

  pub next-set_head : (a : Ptr) → ((set_head l q k).pool a).next ≡ (k.pool a).next
  next-set_head a = elim l as (λ m. ((set_head m q k).pool a).next ≡ (k.pool a).next) [
    | ready_place ↦ refl
    | sleep_place ↦ refl
    | block s ↦ refl
    | join p ↦ ground arith
  ]

pub head-set_head_ne :
    (l m : Place) (q : Ptr) (k : Kernel) → m ≢ l → head m (set_head l q k) ≡ head m k
head-set_head_ne ready_place ready_place q k ne = absurd (ne refl)
head-set_head_ne ready_place sleep_place q k ne = refl
head-set_head_ne ready_place (block s) q k ne = refl
head-set_head_ne ready_place (join a) q k ne = refl
head-set_head_ne sleep_place ready_place q k ne = refl
head-set_head_ne sleep_place sleep_place q k ne = absurd (ne refl)
head-set_head_ne sleep_place (block s) q k ne = refl
head-set_head_ne sleep_place (join a) q k ne = refl
head-set_head_ne (block s) ready_place q k ne = refl
head-set_head_ne (block s) sleep_place q k ne = refl
head-set_head_ne (block s) (block t) q k ne = ground arith
head-set_head_ne (block s) (join a) q k ne = refl
head-set_head_ne (join p) ready_place q k ne = refl
head-set_head_ne (join p) sleep_place q k ne = refl
head-set_head_ne (join p) (block s) q k ne = refl
head-set_head_ne (join p) (join a) q k ne = ground arith

pub globals-set_head : (l : Place) (q : Ptr) (k : Kernel) → globals (set_head l q k) ≡ globals k
globals-set_head ready_place q k = refl
globals-set_head sleep_place q k = refl
globals-set_head (block s) q k = λ i. record (globals k) { sems = λ t. forget t i }
  where
    forget :
        (t : Ptr)
        → record ((set_head (block s) q k).sems t) { block_list = null }
          ≡ record (k.sems t) { block_list = null }
    forget t = ground arith
globals-set_head (join p) q k = λ i. record (globals k) { pool = λ a. forget a i }
  where
    forget : (a : Ptr) → payload ((set_head (join p) q k).pool a) ≡ payload (k.pool a)
    forget a = ground arith

pub Relinks-set_head :
    (l : Place) (q : Ptr) (s : List Ptr) (k : Kernel) → Relinks l s k (set_head l q k)
Relinks-set_head l q s k = record {
  heads = λ m ne. head-set_head_ne l m q k ne;
  links = λ a e. next-set_head l q k a;
  data_kept = globals-set_head l q k;
}

pub Relinks-link :
    (l : Place) (p q : Ptr) (s : List Ptr) (k : Kernel)
    → has p s ≡ true
    → Relinks l s k (link p q k)
Relinks-link l p q s k h = record {
  heads = λ m ne. head-link p q k m;
  links = λ a e. next-link_ne p q k a (apart a e);
  data_kept = globals-link p q k;
}
  where
    apart : (a : Ptr) → has a s ≡ false → (a == p) ≡ false
    apart a e = elim (Bool-cases (a == p)) [ inl y ↦ ground (arith, e, h) | inr n ↦ n ]

pub Relinks-trans :
    {l : Place} {s : List Ptr} {k k' k'' : Kernel}
    → Relinks l s k k'
    → Relinks l s k' k''
    → Relinks l s k k''
Relinks-trans f g = record {
  heads = λ m ne. g.heads m ne ∙ f.heads m ne;
  links = λ a e. g.links a e ∙ f.links a e;
  data_kept = g.data_kept ∙ f.data_kept;
}

pub set_next-ok : (p q : Ptr) (k : Kernel) → IsPcb p → set_next p q k ≡ ok tt (link p q k)
unfolding link
set_next-ok p q k v = store-ok p (λ d. record d { next = q }) k v

pub Relinks-refl : (l : Place) (s : List Ptr) (k : Kernel) → Relinks l s k k
Relinks-refl l s k = record { heads = λ m ne. refl; links = λ a e. refl; data_kept = refl }

-- ===== src/Descriptors/Gates.antt =====
-- Each vector leads to its handler in the kernel; only the system call is open to user programs.
use mathlib.Core.Path.{subst}
use sebopesyslab.Base.{
  ℕ, zero, suc, ◌+◌, ◌*◌, ◌^◌, ◌<◌, ◌≡◌, refl, sym, ap, ◌∙◌, arith, false, ◌||◌, ◌==◌,
  if◌then◌else◌, ltb, Bool-cases, inl, inr, ==→eq, lt→ltb,
}
use sebopesyslab.Descriptors.{
  Gate, Handlers, nr_irq, set_intr, set_trap, interrupt_gate_32, trap_gate_32, dpl_kernel, dpl_user,
  seg_kernel_code, empty_gates, exception_gates, init_idt,
}

-- The handler that the processor jumps to.
abbrev pub gate_target : Gate → ℕ
gate_target g = g.offset_31_16 * 2 ^ 16 + g.offset_15_0

-- Where the vector `v` should lead.
abbrev pub handler_of : Handlers → ℕ → ℕ
handler_of h v =
    if v == 33
    then h.irq1
    else if v == 32
    then h.irq0
    else if v == 0x80
    then h.vecsys
    else if ltb v 14
    then h.vec v
    else h.irq_empty

abbrev pub AreWords : Handlers → Type 0
AreWords h =
    ((i : ℕ) → h.vec i < 2 ^ 32)
    × (h.vecsys < 2 ^ 32)
    × (h.irq0 < 2 ^ 32)
    × (h.irq1 < 2 ^ 32)
    × (h.irq_empty < 2 ^ 32)

pub record Leads (g : Gate) (v handler : ℕ) : Type 0 where
  pub target : gate_target g ≡ handler
  pub in_kernel : g.segment ≡ seg_kernel_code * 8
  pub there : g.present ≡ 1
  pub masks : g.gate_type ≡ (if v == 32 || v == 33 then interrupt_gate_32 else trap_gate_32)
  pub privilege : g.privilege_level ≡ (if v == 0x80 then dpl_user else dpl_kernel)

abbrev expected : Handlers → ℕ → Gate
expected h v =
    if v == 33
    then set_intr seg_kernel_code h.irq1 dpl_kernel
    else if v == 32
    then set_intr seg_kernel_code h.irq0 dpl_kernel
    else if v == 0x80
    then set_trap seg_kernel_code h.vecsys dpl_user
    else if ltb v 14
    then set_trap seg_kernel_code (h.vec v) dpl_kernel
    else set_trap seg_kernel_code h.irq_empty dpl_kernel

empty_gates-below :
    (n v handler : ℕ) (idt : ℕ → Gate)
    → v < n
    → empty_gates n handler idt v ≡ set_trap seg_kernel_code handler dpl_kernel
unfolding empty_gates
empty_gates-below zero v handler idt b = absurd (omega (arith, b))
empty_gates-below (suc n) v handler idt b = ground (arith, b, empty_gates-below n v handler idt)

exception_gates-at :
    (n v : ℕ) (vec : ℕ → ℕ) (idt : ℕ → Gate)
    → exception_gates n vec idt v
      ≡ (if ltb v n then set_trap seg_kernel_code (vec v) dpl_kernel else idt v)
unfolding exception_gates
exception_gates-at zero v vec idt = ground arith
exception_gates-at (suc n) v vec idt = elim (Bool-cases (v == n)) [
  | inl y ↦
      rw (y, lt→ltb v (suc n) (omega (arith, ==→eq v n y)))
        (ap (λ z. set_trap seg_kernel_code (vec z) dpl_kernel) (sym (==→eq v n y)))
  | inr o ↦
      let same : ltb v n ≡ ltb v (suc n) = ground (arith, o) in
      rw o (
        exception_gates-at n v vec idt
        ∙ ap (λ b. if b then set_trap seg_kernel_code (vec v) dpl_kernel else idt v) same)
]

init_idt-expected :
    (h : Handlers) (idt : ℕ → Gate) (v : ℕ) → v < nr_irq → init_idt h idt v ≡ expected h v
unfolding init_idt
init_idt-expected h idt v b =
    let empty = empty_gates nr_irq h.irq_empty idt in
    let inner =
      exception_gates-at 14 v h.vec empty
      ∙ ap (λ g. if ltb v 14 then set_trap seg_kernel_code (h.vec v) dpl_kernel else g)
          (empty_gates-below nr_irq v h.irq_empty idt b) in
    ap
      (λ g.
        if v == 33
        then set_intr seg_kernel_code h.irq1 dpl_kernel
        else if v == 32
        then set_intr seg_kernel_code h.irq0 dpl_kernel
        else if v == 0x80
        then set_trap seg_kernel_code h.vecsys dpl_user
        else g)
      inner

Leads-trap :
    (v a : ℕ)
    → a < 2 ^ 32
    → (v == 32) ≡ false
    → (v == 33) ≡ false
    → (v == 0x80) ≡ false
    → Leads (set_trap seg_kernel_code a dpl_kernel) v a
Leads-trap v a b x y z = record {
  target = omega (arith, b);
  in_kernel = refl;
  there = refl;
  masks = rw (x, y) refl;
  privilege = rw z refl;
}

Leads-expected : (h : Handlers) (v : ℕ) → AreWords h → Leads (expected h v) v (handler_of h v)
Leads-expected h v w = elim (Bool-cases (v == 33)) [
  | inl e ↦
      subst (λ z. Leads (expected h z) z (handler_of h z)) (sym (==→eq v 33 e))
        (record {
          target = omega (arith, w.3);
          in_kernel = refl;
          there = refl;
          masks = refl;
          privilege = refl;
        })
  | inr y ↦ elim (Bool-cases (v == 32)) [
    | inl e ↦
        subst (λ z. Leads (expected h z) z (handler_of h z)) (sym (==→eq v 32 e))
          (record {
            target = omega (arith, w.2);
            in_kernel = refl;
            there = refl;
            masks = refl;
            privilege = refl;
          })
    | inr x ↦ elim (Bool-cases (v == 0x80)) [
      | inl e ↦
          subst (λ z. Leads (expected h z) z (handler_of h z)) (sym (==→eq v 0x80 e))
            (record {
              target = omega (arith, w.1);
              in_kernel = refl;
              there = refl;
              masks = refl;
              privilege = refl;
            })
      | inr z ↦ elim (Bool-cases (ltb v 14)) [
        | inl low ↦ rw (y, x, z, low) (Leads-trap v (h.vec v) (w.0 v) x y z)
        | inr high ↦ rw (y, x, z, high) (Leads-trap v h.irq_empty w.4 x y z)
      ]
    ]
  ]
]

-- With handlers at 32-bit addresses, each of the 256 gates that init_idt leaves is present,
-- leads to its handler in the code segment of the kernel, masks interrupts exactly for the
-- vectors 32 and 33, and is open to user programs exactly for 0x80.
pub init_idt-Leads :
    (h : Handlers) (idt : ℕ → Gate) (v : ℕ)
    → AreWords h
    → v < nr_irq
    → Leads (init_idt h idt v) v (handler_of h v)
init_idt-Leads h idt v w b =
    subst (λ g. Leads g v (handler_of h v)) (sym (init_idt-expected h idt v b))
      (Leads-expected h v w)

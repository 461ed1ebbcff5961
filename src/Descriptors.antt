-- ===== src/Descriptors.antt =====
-- The gates of kernel/src/irq/idt.c and the segments of kernel/src/memory/kvm.c, with the structures
-- of inc/x86.h and inc/memory.h. The addresses of the handlers, which are assembly, are given.
pub mod Gates
pub mod Segments
use sebopesyslab.Base.{
  ℕ, zero, suc, ◌+◌, ◌-◌, ◌*◌, ◌/◌, ◌%◌, ◌^◌, bit_or, ◌<<<◌, ◌>>>◌, ◌==◌, if◌then◌else◌, u8,
}
use sebopesyslab.Kernel.{update}

abbrev pub u16 : ℕ → ℕ
u16 n = n % 2 ^ 16

-- struct GateDescriptor
pub record Gate : Type 0 where
  pub offset_15_0 : ℕ
  pub segment : ℕ
  pub pad0 : ℕ
  pub gate_type : ℕ
  pub system : ℕ
  pub privilege_level : ℕ
  pub present : ℕ
  pub offset_31_16 : ℕ

abbrev pub nr_irq : ℕ
nr_irq = 256

abbrev pub interrupt_gate_32 : ℕ
interrupt_gate_32 = 0xe

abbrev pub trap_gate_32 : ℕ
trap_gate_32 = 0xf

abbrev pub dpl_kernel : ℕ
dpl_kernel = 0

abbrev pub dpl_user : ℕ
dpl_user = 3

abbrev pub seg_kernel_code : ℕ
seg_kernel_code = 1

abbrev pub set_intr : (selector offset dpl : ℕ) → Gate
set_intr selector offset dpl = record {
  offset_15_0 = u16 offset;
  segment = u16 (selector <<< 3);
  pad0 = 0;
  gate_type = interrupt_gate_32;
  system = 0;
  privilege_level = dpl % 4;
  present = 1;
  offset_31_16 = u16 (offset >>> 16);
}

abbrev pub set_trap : (selector offset dpl : ℕ) → Gate
set_trap selector offset dpl = record {
  offset_15_0 = u16 offset;
  segment = u16 (selector <<< 3);
  pad0 = 0;
  gate_type = trap_gate_32;
  system = 0;
  privilege_level = dpl % 4;
  present = 1;
  offset_31_16 = u16 (offset >>> 16);
}

-- The addresses of vec0 to vec13, vecsys, irq0, irq1 and irq_empty
pub record Handlers : Type 0 where
  pub vec : ℕ → ℕ
  pub vecsys : ℕ
  pub irq0 : ℕ
  pub irq1 : ℕ
  pub irq_empty : ℕ

-- `for (i = 0; i < NR_IRQ; i ++)`, the first `n` gates
pub empty_gates : (n handler : ℕ) → (ℕ → Gate) → (ℕ → Gate)
empty_gates zero handler idt = idt
empty_gates (suc n) handler idt =
    update (empty_gates n handler idt) n (set_trap seg_kernel_code handler dpl_kernel)

-- The gates of the exceptions below `n`
pub exception_gates : (n : ℕ) → (ℕ → ℕ) → (ℕ → Gate) → (ℕ → Gate)
exception_gates zero vec idt = idt
exception_gates (suc n) vec idt =
    update (exception_gates n vec idt) n (set_trap seg_kernel_code (vec n) dpl_kernel)

-- The table that is given to save_idt, from the array `idt`.
pub init_idt : Handlers → (ℕ → Gate) → (ℕ → Gate)
init_idt h idt =
    let exceptions = exception_gates 14 h.vec (empty_gates nr_irq h.irq_empty idt) in
    let calls = update exceptions 0x80 (set_trap seg_kernel_code h.vecsys dpl_user) in
    let timer = update calls 32 (set_intr seg_kernel_code h.irq0 dpl_kernel) in
    update timer 33 (set_intr seg_kernel_code h.irq1 dpl_kernel)

-- SegDesc, without the fields that no code reads: soft_use, operation_size and pad0
pub record SegDesc : Type 0 where
  pub limit_15_0 : ℕ
  pub base_15_0 : ℕ
  pub base_23_16 : ℕ
  pub seg_type : ℕ
  pub segment_type : ℕ
  pub privilege_level : ℕ
  pub present : ℕ
  pub limit_19_16 : ℕ
  pub soft_use : ℕ
  pub operation_size : ℕ
  pub pad0 : ℕ
  pub granularity : ℕ
  pub base_31_24 : ℕ

abbrev pub zero_segment : SegDesc
zero_segment = record {
  limit_15_0 = 0;
  base_15_0 = 0;
  base_23_16 = 0;
  seg_type = 0;
  segment_type = 0;
  privilege_level = 0;
  present = 0;
  limit_19_16 = 0;
  soft_use = 0;
  operation_size = 0;
  pad0 = 0;
  granularity = 0;
  base_31_24 = 0;
}

abbrev pub set_segment : (pl seg_type : ℕ) → SegDesc
set_segment pl seg_type = record {
  limit_15_0 = 0xffff;
  base_15_0 = 0;
  base_23_16 = 0;
  seg_type = seg_type % 16;
  segment_type = 1;
  privilege_level = pl % 4;
  present = 1;
  limit_19_16 = 0xf;
  soft_use = 0;
  operation_size = 0;
  pad0 = 1;
  granularity = 1;
  base_31_24 = 0;
}

abbrev pub seg_tss_32bit : ℕ
seg_tss_32bit = 9

-- sizeof(TSS)
abbrev pub tss_size : ℕ
tss_size = 4 + 4 + 4 + 88

-- The descriptor of the TSS at the address `base`
abbrev pub set_tss : (base : ℕ) → SegDesc
set_tss base =
    let limit = tss_size - 1 in
    record {
      limit_15_0 = u16 limit;
      base_15_0 = u16 base;
      base_23_16 = u8 (base >>> 16);
      seg_type = seg_tss_32bit;
      segment_type = 0;
      privilege_level = dpl_user;
      present = 1;
      limit_19_16 = (limit >>> 16) % 16;
      soft_use = 0;
      operation_size = 0;
      pad0 = 1;
      granularity = 0;
      base_31_24 = u8 (base >>> 24);
    }

-- SEG_WRITABLE, SEG_READABLE and SEG_EXECUTABLE
abbrev pub seg_writable : ℕ
seg_writable = 2

abbrev pub seg_readable : ℕ
seg_readable = 2

abbrev pub seg_executable : ℕ
seg_executable = 8

-- The table that is given to write_gdtr, with the TSS at `tss`
pub init_segment : (tss : ℕ) → ℕ → SegDesc
init_segment tss =
    let code = bit_or seg_executable seg_readable in
    let gdt1 = update (λ i. zero_segment) 1 (set_segment dpl_kernel code) in
    let gdt2 = update gdt1 2 (set_segment dpl_kernel seg_writable) in
    let gdt3 = update gdt2 3 (set_segment dpl_user code) in
    let gdt4 = update gdt3 4 (set_segment dpl_user seg_writable) in update gdt4 5 (set_tss tss)

-- ===== src/Tests/Gates.antt =====
-- The theorems on gates and system calls at concrete handlers and registers.
use sebopesyslab.Base.{◌≡◌, map, arith}
use sebopesyslab.Descriptors.{Handlers, init_idt, set_trap}
use sebopesyslab.Descriptors.Gates.{Leads, handler_of, init_idt-Leads}
use sebopesyslab.Traps.Calls.{Registers, dispatch}
use sebopesyslab.Traps.Calls.Stubs.{call_fs_read, trap_registers, wanted, dispatch-trap_registers}

abbrev handlers : Handlers
handlers = record {
  vec = λ i. 0xc010_0000;
  vecsys = 0xc010_1000;
  irq0 = 0xc010_2000;
  irq1 = 0xc010_3000;
  irq_empty = 0xc010_4000;
}

init_idt-Leads_example :
    Leads (init_idt handlers (λ i. set_trap 0 0 0) 0x80) 0x80 (handler_of handlers 0x80)
init_idt-Leads_example =
    init_idt-Leads handlers (λ i. set_trap 0 0 0) 0x80
      ((λ i. omega arith), omega arith, omega arith, omega arith, omega arith) (omega arith)

abbrev old_registers : Registers
old_registers = record { eax = 1; ebx = 2; ecx = 3; edx = 4 }

dispatch-trap_registers_example :
    map dispatch (trap_registers 9 (call_fs_read 3 0x1000 64) old_registers)
    ≡ wanted 9 (call_fs_read 3 0x1000 64)
dispatch-trap_registers_example = dispatch-trap_registers 9 (call_fs_read 3 0x1000 64) old_registers

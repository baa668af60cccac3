-- ===== src/Descriptors/Tests.antt =====
-- kernel/src/idt.c and kernel/src/gdt.c: gates and the task state segment at concrete addresses.
use plusplus_os.Base.{ℕ, ◌+◌, ◌*◌, ◌%◌, ◌^◌, ◌≡◌, ◌≢◌, true, refl, arith, update}
use plusplus_os.Machine.{ok}
use plusplus_os.Descriptors.{
  interrupt_gate, gdt_kernel_code_segment, Idt, set_idt_gate, register_interrupt,
  unregister_interrupt, Segments, initial_segments, tss_size, setup_gdt_and_tss,
}
use plusplus_os.Descriptors.Gates.{
  handler_of, dpl_of, tss_base_of, register_interrupt_lem, set_idt_gate-dpl, setup_gdt_and_tss_lem,
  KeepsSegments,
}

abbrev empty_idt : Idt
empty_idt = λ i. record {
  offset_0_15 = 0;
  selector = 0;
  ist = 0;
  type_attr = 0;
  offset_16_31 = 0;
  offset_32_63 = 0;
  reserved = 0;
}

abbrev handler_address : ℕ
handler_address = 0xfffff00000123456

set_idt_gate-dpl_example :
    dpl_of
      (set_idt_gate 0x80 interrupt_gate handler_address gdt_kernel_code_segment 0 3 empty_idt 0x80)
    ≡ 2 * (3 % 2)
set_idt_gate-dpl_example =
    set_idt_gate-dpl 0x80 interrupt_gate handler_address gdt_kernel_code_segment 0 3 empty_idt
      (omega arith) (omega arith)

abbrev registered : Idt
registered = register_interrupt 0x21 interrupt_gate true handler_address empty_idt

register_interrupt_lem_example :
    (handler_of (registered 0x21) ≡ handler_address)
    × ((registered 0x21).selector ≡ gdt_kernel_code_segment)
    × ((registered 0x21).type_attr ≡ 2 ^ 7 + interrupt_gate)
    × (dpl_of (registered 0x21) ≡ 0)
    × ((j : ℕ) → j ≢ 0x21 → registered j ≡ empty_idt j)
    × ((registered 0x21).ist ≡ 1)
register_interrupt_lem_example =
    register_interrupt_lem 0x21 interrupt_gate handler_address true empty_idt (omega arith)
      (omega arith)

setup_gdt_and_tss_lem_example :
    (s : Segments) × (setup_gdt_and_tss (ok 0xfffff00000400000) 0xfffff00000001000 initial_segments
      ≡ ok tt s)
    × (tss_base_of s ≡ 0xfffff00000001000)
    × (s.tss_low.limit_0_15 ≡ tss_size)
    × (s.interrupt_stack_table 0 ≡ 0xfffff00000400000 + 8192)
    × (s.iopb_offset ≡ tss_size)
    × KeepsSegments initial_segments s
setup_gdt_and_tss_lem_example =
    setup_gdt_and_tss_lem 0xfffff00000400000 0xfffff00000001000 initial_segments (omega arith)

-- A gate that is taken away has no handler.
unregister_test : handler_of (unregister_interrupt 3 empty_idt 3) ≡ 0
unfolding unregister_interrupt update
unregister_test = refl

-- ===== src/Descriptors.antt =====
-- kernel/src/idt.c and kernel/src/gdt.c: the interrupt gates, and the descriptor of the task state
-- segment. lidt, lgdt and ltr are not modelled.
pub mod Gates
mod Tests
use plusplus_os.Base.{
  ℕ, ◌+◌, ◌*◌, ◌/◌, ◌%◌, ◌^◌, Bool, true, false, List, [], ◌∷◌, if◌then◌else◌, update, u8, ◌<<<◌,
  ◌>>>◌, bit_and, bit_or,
}
use plusplus_os.Memory.EntryPool.{page_size}
use plusplus_os.Machine.{Cmd, ok, pure, ◌>>=◌, ◌>>◌}

abbrev pub interrupt_gate : ℕ
interrupt_gate = 14

abbrev pub gdt_kernel_code_segment : ℕ
gdt_kernel_code_segment = 8

abbrev pub tss_stack_pages : ℕ
tss_stack_pages = 2

-- IDTEntry
pub record IdtEntry : Type 0 where
  pub offset_0_15 : ℕ
  pub selector : ℕ
  pub ist : ℕ
  pub type_attr : ℕ
  pub offset_16_31 : ℕ
  pub offset_32_63 : ℕ
  pub reserved : ℕ

-- g_idt
abbrev pub Idt : Type 0
Idt = ℕ → IdtEntry

-- The entry after the assignments; `reserved` stays. The type has 8 bits.
unfoldable pub gate : ℕ → ℕ → ℕ → ℕ → ℕ → IdtEntry → IdtEntry
gate type handler_address segment_selector ist privilege e = record e {
  offset_0_15 = bit_and handler_address 0xffff;
  selector = segment_selector;
  ist = ist;
  type_attr = u8 (bit_or (bit_or 0b10000000 (bit_and privilege 0b11 <<< 6)) type);
  offset_16_31 = bit_and (handler_address >>> 16) 0xffff;
  offset_32_63 = bit_and (handler_address >>> 32) 0xffffffff;
}

unfoldable pub set_idt_gate : ℕ → ℕ → ℕ → ℕ → ℕ → ℕ → Idt → Idt
set_idt_gate irq type handler_address segment_selector ist privilege idt =
    update idt irq (gate type handler_address segment_selector ist privilege (idt irq))

unfoldable pub register_interrupt : ℕ → ℕ → Bool → ℕ → Idt → Idt
register_interrupt irq type ist handler idt =
    set_idt_gate irq type handler gdt_kernel_code_segment (if ist then 1 else 0) 0 idt

unfoldable pub unregister_interrupt : ℕ → Idt → Idt
unregister_interrupt irq idt = update idt irq (record {
  offset_0_15 = 0;
  selector = 0;
  ist = 0;
  type_attr = 0;
  offset_16_31 = 0;
  offset_32_63 = 0;
  reserved = 0;
})

-- GDTEntry
pub record GdtEntry : Type 0 where
  pub limit_0_15 : ℕ
  pub base_0_15 : ℕ
  pub base_16_23 : ℕ
  pub access : ℕ
  pub limit_16_19_and_flags : ℕ
  pub base_24_31 : ℕ

-- g_gdt, and the fields of g_tss that are used.
pub record Segments : Type 0 where
  pub null : GdtEntry
  pub kernel_code : GdtEntry
  pub kernel_data : GdtEntry
  pub null2 : GdtEntry
  pub user_data : GdtEntry
  pub user_code : GdtEntry
  pub tss_low : GdtEntry
  pub tss_high : GdtEntry
  pub rsp : ℕ → ℕ
  pub interrupt_stack_table : ℕ → ℕ
  pub iopb_offset : ℕ

abbrev pub gdt_entry : ℕ → ℕ → GdtEntry
gdt_entry access flags = record {
  limit_0_15 = 0;
  base_0_15 = 0;
  base_16_23 = 0;
  access = access;
  limit_16_19_and_flags = flags;
  base_24_31 = 0;
}

abbrev pub initial_segments : Segments
initial_segments = record {
  null = gdt_entry 0 0;
  kernel_code = gdt_entry 0b10011010 0b10100000;
  kernel_data = gdt_entry 0b10010010 0b10100000;
  null2 = gdt_entry 0 0;
  user_data = gdt_entry 0b11110010 0b10100000;
  user_code = gdt_entry 0b11111010 0b10100000;
  tss_low = gdt_entry 0b10001001 0b10100000;
  tss_high = gdt_entry 0 0;
  rsp = λ i. 0;
  interrupt_stack_table = λ i. 0;
  iopb_offset = 0;
}

unfoldable pub set_tss_kernel_stack : ℕ → Segments → Segments
set_tss_kernel_stack stack_ptr g = record g { rsp = update g.rsp 0 stack_ptr }

-- sizeof(g_tss)
abbrev pub tss_size : ℕ
tss_size = 104

unfoldable pub describe_tss : ℕ → Segments → Segments
describe_tss tss_base g = record g {
  tss_low = record g.tss_low {
    limit_0_15 = tss_size;
    base_0_15 = bit_and tss_base 0xffff;
    base_16_23 = bit_and (tss_base >>> 16) 0xff;
    base_24_31 = bit_and (tss_base >>> 24) 0xff;
  };
  tss_high = record g.tss_high {
    limit_0_15 = bit_and (tss_base >>> 32) 0xffff;
    base_0_15 = bit_and (tss_base >>> 48) 0xffff;
  };
}

-- `alloc_pages` is the call for the stack, `tss_base` the address of g_tss.
unfoldable pub setup_gdt_and_tss : Cmd Segments ℕ → ℕ → Cmd Segments (Unit {0})
setup_gdt_and_tss alloc_pages tss_base = do
  (λ g. ok tt (record g { iopb_offset = tss_size }))
  stack ← alloc_pages
  (λ g. ok tt (record g {
    interrupt_stack_table = update g.interrupt_stack_table 0 (stack + tss_stack_pages * page_size);
  }))
  (λ g. ok tt (describe_tss tss_base g))

-- ===== src/Descriptors/Gates.antt =====
-- kernel/src/idt.c and kernel/src/gdt.c: what the processor reads from the descriptors.
use plusplus_os.Base.{
  ℕ, zero, suc, ◌+◌, ◌*◌, ◌/◌, ◌%◌, ◌^◌, ◌<◌, ◌≡◌, ◌≢◌, ◌⊎◌, inl, inr, ap, ◌∙◌, refl, Bool,
  if◌then◌else◌, arith, bit_and, bit_or, update_same, update_other, ◌<<<◌,
}
use plusplus_os.Base.Bits.{bit_and_mask}
use plusplus_os.Base.Masks.{bit_or_disjoint}
use plusplus_os.Machine.{ok}
use plusplus_os.Descriptors.{
  gdt_kernel_code_segment, IdtEntry, Idt, gate, set_idt_gate, register_interrupt, Segments,
  tss_size, describe_tss, setup_gdt_and_tss,
}

-- The address that the processor jumps to.
abbrev pub handler_of : IdtEntry → ℕ
handler_of e = e.offset_0_15 + 2 ^ 16 * e.offset_16_31 + 2 ^ 32 * e.offset_32_63

-- The privilege level that may call the gate, bits 5 and 6.
abbrev pub dpl_of : IdtEntry → ℕ
dpl_of e = e.type_attr / 2 ^ 5 % 4

-- The base address of the task state segment, in its two halves.
abbrev pub tss_base_of : Segments → ℕ
tss_base_of g =
    g.tss_low.base_0_15
    + 2 ^ 16 * g.tss_low.base_16_23
    + 2 ^ 24 * g.tss_low.base_24_31
    + 2 ^ 32 * g.tss_high.limit_0_15
    + 2 ^ 48 * g.tss_high.base_0_15

gate-handler :
    (type handler segment ist privilege : ℕ) (e : IdtEntry)
    → handler < 2 ^ 64
    → handler_of (gate type handler segment ist privilege e) ≡ handler
unfolding gate
gate-handler type handler segment ist privilege e fits = omega (
  arith,
  bit_and_mask 16 handler,
  bit_and_mask 16 (handler / 2 ^ 16),
  bit_and_mask 32 (handler / 2 ^ 32),
)

-- The privilege that the code encodes at bit 6.
privilege_bits :
    (p : ℕ)
    → p < 4
    → ((bit_or 0b10000000 (p <<< 6) ≡ 8 * 2 ^ 4) × (p % 2 ≡ 0))
      ⊎ ((bit_or 0b10000000 (p <<< 6) ≡ 12 * 2 ^ 4) × (p % 2 ≡ 1))
privilege_bits zero h = inl (refl, refl)
privilege_bits (suc zero) h = inr (refl, refl)
privilege_bits (suc (suc zero)) h = inl (refl, refl)
privilege_bits (suc (suc (suc zero))) h = inr (refl, refl)
privilege_bits (suc (suc (suc (suc p)))) h = absurd (omega arith)

masked : (p : ℕ) → p < 4 → bit_and p 0b11 ≡ p
masked p h = omega (arith, bit_and_mask 2 p)

type_attr_value :
    (t p high : ℕ)
    → t < 2 ^ 4
    → bit_or 0b10000000 (bit_and p 0b11 <<< 6) ≡ high * 2 ^ 4
    → bit_or (bit_or 0b10000000 (bit_and p 0b11 <<< 6)) t ≡ high * 2 ^ 4 + t
type_attr_value t p high fits e = ap (λ (x : ℕ). bit_or x t) e ∙ bit_or_disjoint 4 high t fits

-- The gate that register_interrupt sets: the processor reads the handler's address from it, in the
-- kernel's code segment; it is present, for privilege level 0 only, with the first interrupt stack if
-- one is wanted and none else, and all other gates stay as they are. The handler is a 64-bit address and the type a 4-bit number.
pub register_interrupt_lem :
    (irq type handler : ℕ) (ist : Bool) (idt : Idt)
    → handler < 2 ^ 64
    → type < 2 ^ 4
    → (handler_of (register_interrupt irq type ist handler idt irq) ≡ handler)
      × ((register_interrupt irq type ist handler idt irq).selector ≡ gdt_kernel_code_segment)
      × ((register_interrupt irq type ist handler idt irq).type_attr ≡ 2 ^ 7 + type)
      × (dpl_of (register_interrupt irq type ist handler idt irq) ≡ 0)
      × ((j : ℕ) → j ≢ irq → register_interrupt irq type ist handler idt j ≡ idt j)
      × ((register_interrupt irq type ist handler idt irq).ist ≡ (if ist then 1 else 0))
unfolding register_interrupt set_idt_gate
register_interrupt_lem irq type handler ist idt fits small =
    let i : ℕ = if ist then 1 else 0 in
    let e : IdtEntry = gate type handler gdt_kernel_code_segment i 0 (idt irq) in
    let attr : e.type_attr ≡ 2 ^ 7 + type =
      unfold gate in omega (arith, type_attr_value type 0 8 small refl) in
    rw (update_same idt irq e) (
      gate-handler type handler gdt_kernel_code_segment i 0 (idt irq) fits,
      unfold gate in refl,
      attr,
      omega (arith, attr),
      λ j ne. update_other idt irq j e ne,
      unfold gate in refl,
    )

-- The privilege level that the processor reads from a gate that set_idt_gate sets is 2 if the wanted
-- one, below 4, is odd, and 0 if it is even: levels 1, 2 and 3 are not the ones that are wanted.
pub set_idt_gate-dpl :
    (irq type handler segment ist privilege : ℕ) (idt : Idt)
    → type < 2 ^ 4
    → privilege < 4
    → dpl_of (set_idt_gate irq type handler segment ist privilege idt irq) ≡ 2 * (privilege % 2)
unfolding set_idt_gate gate
set_idt_gate-dpl irq type handler segment ist privilege idt small level =
    rw (update_same idt irq (gate type handler segment ist privilege (idt irq)))
      (elim (privilege_bits privilege level) [
        | inl (e, even) ↦ omega (
          arith,
          even,
          type_attr_value type privilege 8 small
              (ap (λ (x : ℕ). bit_or 0b10000000 (x <<< 6)) (masked privilege level) ∙ e),
        )
        | inr (e, odd) ↦ omega (
          arith,
          odd,
          type_attr_value type privilege 12 small
              (ap (λ (x : ℕ). bit_or 0b10000000 (x <<< 6)) (masked privilege level) ∙ e),
        )
      ])

-- All segments but the task state segment are as before, and so are the stacks for the privilege
-- levels, the other interrupt stacks and the access rights and flags of the task state segment.
pub record KeepsSegments (g s : Segments) : Type 0 where
  pub null : s.null ≡ g.null
  pub kernel_code : s.kernel_code ≡ g.kernel_code
  pub kernel_data : s.kernel_data ≡ g.kernel_data
  pub null2 : s.null2 ≡ g.null2
  pub user_data : s.user_data ≡ g.user_data
  pub user_code : s.user_code ≡ g.user_code
  pub kernel_stacks : s.rsp ≡ g.rsp
  pub other_stacks : (i : ℕ) → i ≢ 0 → s.interrupt_stack_table i ≡ g.interrupt_stack_table i
  pub tss_access :
      (s.tss_low.access ≡ g.tss_low.access)
      × (s.tss_low.limit_16_19_and_flags ≡ g.tss_low.limit_16_19_and_flags)

-- setup_gdt_and_tss, with an alloc_pages that gives a stack and leaves the segments alone, returns
-- with a task state descriptor from which the processor reads the 64-bit address of g_tss, the
-- interrupt stack's end in the first place of the interrupt stack table and no I/O bitmap; the
-- segments of the kernel and of the processes, the null segments, the other stacks and the access
-- rights of the task state segment stay as they are.
pub setup_gdt_and_tss_lem :
    (stack tss_base : ℕ) (g : Segments)
    → tss_base < 2 ^ 64
    → (s : Segments) × (setup_gdt_and_tss (ok stack) tss_base g ≡ ok tt s)
      × (tss_base_of s ≡ tss_base)
      × (s.tss_low.limit_0_15 ≡ tss_size)
      × (s.interrupt_stack_table 0 ≡ stack + 8192)
      × (s.iopb_offset ≡ tss_size)
      × KeepsSegments g s
unfolding setup_gdt_and_tss describe_tss
setup_gdt_and_tss_lem stack tss_base g fits = (
  _,
  refl,
  omega (
    arith,
    bit_and_mask 16 tss_base,
    bit_and_mask 8 (tss_base / 2 ^ 16),
    bit_and_mask 8 (tss_base / 2 ^ 24),
    bit_and_mask 16 (tss_base / 2 ^ 32),
    bit_and_mask 16 (tss_base / 2 ^ 48),
  ),
  refl,
  update_same g.interrupt_stack_table 0 (stack + 8192),
  refl,
  record {
    null = refl;
    kernel_code = refl;
    kernel_data = refl;
    null2 = refl;
    user_data = refl;
    user_code = refl;
    kernel_stacks = refl;
    other_stacks = λ i ne. update_other g.interrupt_stack_table 0 i (stack + 8192) ne;
    tss_access = (refl, refl);
  },
)

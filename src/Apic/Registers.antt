-- ===== src/Apic/Registers.antt =====
-- kernel/src/apic.c: the registers of an IOAPIC and its redirection table.
use plusplus_os.Base.{
  ℕ, zero, suc, ◌+◌, ◌/◌, ◌%◌, ◌^◌, ◌<◌, ◌≤◌, ◌≡◌, ◌≢◌, ap, sym, subst, ◌∙◌, refl, Bool, true,
  false, some, none, arith, ◌==◌, Bool-cases, inl, inr, update, update_same, update_other, u8, u32,
  ltb, leb, ◌&&◌,
}
use plusplus_os.Base.Masks.{bit_and_field}
use plusplus_os.Machine.{Cmd, ok, pure, ◌>>=◌}
use plusplus_os.Apic.{
  Apic, Ioapic, IoapicInfo, redtbl_offset, get_bitrange_value, select_register, write_register,
  read_ioapic_register, write_ioapic_register, read_ioapic_id, read_redtable_entry,
  write_redtable_entry, responsible_from,
}

bitrange_id : (r : ℕ) → get_bitrange_value r 24 27 ≡ r / 2 ^ 24 % 2 ^ 3
unfolding get_bitrange_value
bitrange_id r = bit_and_field 3 24 r

module _ {X : Type 0} where
  -- The register of an IOAPIC, in a state.
  abbrev pub register : ℕ → ℕ → Apic X → ℕ
  register ioapic offset s = (s.ioapics ioapic).registers offset

  abbrev pub selected : ℕ → ℕ → Apic X → Apic X
  selected ioapic offset s = record s {
    ioapics = update s.ioapics ioapic (record (s.ioapics ioapic) { current_register = offset });
  }

  -- Reading a register gives what it holds.
  pub read_ioapic_register_lem :
      (ioapic offset : ℕ) (s : Apic X)
      → read_ioapic_register ioapic offset s
        ≡ ok (register ioapic offset s) (selected ioapic offset s)
  unfolding read_ioapic_register select_register
  read_ioapic_register_lem ioapic offset s =
      rw (update_same s.ioapics ioapic (record (s.ioapics ioapic) { current_register = offset }))
        refl

  pub register-selected :
      (ioapic offset j : ℕ) (s : Apic X)
      → register ioapic j (selected ioapic offset s) ≡ register ioapic j s
  register-selected ioapic offset j s =
      ap (λ (e : Ioapic). e.registers j)
        (update_same s.ioapics ioapic (record (s.ioapics ioapic) { current_register = offset }))

  read_ioapic_id_lem :
      (ioapic : ℕ) (s : Apic X)
      → read_ioapic_id ioapic s ≡ ok (register ioapic 0 s / 2 ^ 24 % 2 ^ 3) (selected ioapic 0 s)
  unfolding read_ioapic_id
  read_ioapic_id_lem ioapic s =
      rw (read_ioapic_register_lem ioapic 0 s)
        (ap (λ (v : ℕ). ok v (selected ioapic 0 s)) (bitrange_id (register ioapic 0 s)))

  -- What a write leaves.
  pub record Written (ioapic offset value : ℕ) (s t : Apic X) : Type 0 where
    pub set : register ioapic offset t ≡ value
    pub kept : (j : ℕ) → j ≢ offset → register ioapic j t ≡ register ioapic j s
    pub same_lapic : t.lapic ≡ s.lapic
    pub same_rest : t.rest ≡ s.rest

  pub write_ioapic_register_lem :
      (ioapic offset value : ℕ) (s : Apic X)
      → (t : Apic X) × (write_ioapic_register ioapic offset value s ≡ ok tt t)
        × Written ioapic offset value s t
  unfolding write_ioapic_register select_register write_register
  write_ioapic_register_lem ioapic offset value s =
      let chosen : Ioapic = record (s.ioapics ioapic) { current_register = offset } in
      let now = update_same s.ioapics ioapic chosen in
      let after : Ioapic = record chosen {
        registers = update chosen.registers chosen.current_register value;
      } in
      let cells = update (update s.ioapics ioapic chosen) ioapic after in
      let stored = update_same (update s.ioapics ioapic chosen) ioapic after in
      (
        record s { ioapics = cells },
        rw now refl,
        record {
          set =
              ap (λ (e : Ioapic). e.registers offset) stored
              ∙ update_same (s.ioapics ioapic).registers offset value;
          kept = λ j ne.
              ap (λ (e : Ioapic). e.registers j) stored
              ∙ update_other (s.ioapics ioapic).registers offset j value ne;
          same_lapic = refl;
          same_rest = refl;
        },
      )

  read_both :
      (ioapic offset lower upper : ℕ) (s : Apic X)
      → register ioapic offset s ≡ lower
      → register ioapic (offset + 1) s ≡ upper
      → (let both : Cmd (Apic X) (ℕ × ℕ) = (do
        a ← read_ioapic_register ioapic offset
        b ← read_ioapic_register ioapic (offset + 1)
        pure (a, b)) in
          both s)
        ≡ ok (lower, upper) (selected ioapic (offset + 1) (selected ioapic offset s))
  read_both ioapic offset lower upper s el eu =
      rw
        (
          read_ioapic_register_lem ioapic offset s,
          read_ioapic_register_lem ioapic (offset + 1) (selected ioapic offset s),
        )
        (λ i.
          ok (el i, (register-selected ioapic offset (offset + 1) s ∙ eu) i)
            (selected ioapic (offset + 1) (selected ioapic offset s)))

  -- What write_redtable_entry writes is what read_redtable_entry reads, for the 120 interrupts whose
  -- registers a byte numbers. The write returns and changes neither the other registers of the IOAPIC
  -- nor the local APIC.
  pub read_redtable_entry-write :
      (ioapic irq lower upper : ℕ) (s : Apic X)
      → irq < 120
      → (t u : Apic X) × (write_redtable_entry ioapic irq lower upper s ≡ ok tt t)
        × (read_redtable_entry ioapic irq t ≡ ok (lower, upper) u)
        × ((j : ℕ)
            → j ≢ redtbl_offset irq
            → j ≢ redtbl_offset irq + 1
            → register ioapic j t ≡ register ioapic j s)
        × (t.lapic ≡ s.lapic)
        × (t.rest ≡ s.rest)
  unfolding write_redtable_entry read_redtable_entry
  read_redtable_entry-write ioapic irq lower upper s small =
      let low : u8 (redtbl_offset irq) ≡ redtbl_offset irq = omega arith in
      let high : u8 (redtbl_offset irq + 1) ≡ redtbl_offset irq + 1 = omega arith in
      let (t, w1, e1) = write_ioapic_register_lem ioapic (redtbl_offset irq) lower s in
      let (u, w2, e2) = write_ioapic_register_lem ioapic (redtbl_offset irq + 1) upper t in
      (
        u,
        selected ioapic (redtbl_offset irq + 1) (selected ioapic (redtbl_offset irq) u),
        rw (low, high, w1) w2,
        rw (low, high)
            (read_both ioapic (redtbl_offset irq) lower upper u
              (e2.kept (redtbl_offset irq) (λ e. omega arith) ∙ e1.set) e2.set),
        λ j n1 n2. e2.kept j n2 ∙ e1.kept j n1,
        e2.same_lapic ∙ e1.same_lapic,
        e2.same_rest ∙ e1.same_rest,
      )

  pub read_redtable_entry_lem :
      (ioapic irq : ℕ) (s : Apic X)
      → irq < 120
      → (u : Apic X) × (read_redtable_entry ioapic irq s
          ≡ ok (register ioapic (redtbl_offset irq) s, register ioapic (redtbl_offset irq + 1) s) u)
        × (u.lapic ≡ s.lapic)
        × (u.rest ≡ s.rest)
  unfolding read_redtable_entry
  read_redtable_entry_lem ioapic irq s small =
      let low : u8 (redtbl_offset irq) ≡ redtbl_offset irq = omega arith in
      let high : u8 (redtbl_offset irq + 1) ≡ redtbl_offset irq + 1 = omega arith in
      (
        selected ioapic (redtbl_offset irq + 1) (selected ioapic (redtbl_offset irq) s),
        rw (low, high)
            (read_both ioapic (redtbl_offset irq) (register ioapic (redtbl_offset irq) s)
              (register ioapic (redtbl_offset irq + 1) s) s refl refl),
        refl,
        refl,
      )

-- The IOAPIC serves the interrupt.
abbrev pub Has : IoapicInfo → ℕ → Type 0
Has e gsi = (e.gsi_offset ≤ gsi) × (gsi < u32 (e.gsi_offset + e.used_irqs))

abbrev has_gsi : IoapicInfo → ℕ → Bool
has_gsi e gsi = leb e.gsi_offset gsi && ltb gsi (u32 (e.gsi_offset + e.used_irqs))

has_gsi-Has : (e : IoapicInfo) (gsi : ℕ) → has_gsi e gsi ≡ true → Has e gsi
has_gsi-Has e gsi h = (ground arith, ground arith)

has_gsi-not : (e : IoapicInfo) (gsi : ℕ) → has_gsi e gsi ≡ false → ¬ Has e gsi
has_gsi-not e gsi h has = ground arith

-- An IOAPIC that has the interrupt, and that no earlier one has.
pub record Responsible (found : ℕ → IoapicInfo) (gsi first count i : ℕ) : Type 0 where
  pub within : (first ≤ i) × (i < first + count)
  pub has : Has (found i) gsi
  pub earliest : (j : ℕ) → first ≤ j → j < i → ¬ Has (found j) gsi

pub responsible_from-Responsible :
    (found : ℕ → IoapicInfo) (gsi first count : ℕ) {i : ℕ}
    → responsible_from found gsi first count ≡ some i
    → Responsible found gsi first count i
unfolding responsible_from
responsible_from-Responsible found gsi first zero {i} h = absurd (let e : none ≡ some i = h in cc)
responsible_from-Responsible found gsi first (suc count) {i} h =
    elim (Bool-cases (has_gsi (found first) gsi)) [
      | inl e ↦
          let at : first ≡ i = ground arith in
          subst (λ (j : ℕ). Responsible found gsi first (suc count) j) at
            (record {
              within = (omega arith, omega arith);
              has = has_gsi-Has (found first) gsi e;
              earliest = λ j low high. omega arith;
            })
      | inr e ↦
          let rest : responsible_from found gsi (first + 1) count ≡ some i = rw e at h in
          let ih = responsible_from-Responsible found gsi (first + 1) count rest in
          record {
            within = (omega (arith, ih.within.0), omega (arith, ih.within.1));
            has = ih.has;
            earliest = λ j low high. elim (Bool-cases (j == first)) [
              | inl same ↦
                  let at : j ≡ first = ground arith in
                  subst (λ (k : ℕ). ¬ Has (found k) gsi) (sym at) (has_gsi-not (found first) gsi e)
              | inr other ↦ ih.earliest j (ground arith) high
            ];
          }
    ]

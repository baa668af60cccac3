-- ===== src/Apic/Madt.antt =====
-- kernel/src/apic.c: when the loop over the MADT's entries ends.
use plusplus_os.Base.{
  ℕ, zero, suc, ◌+◌, ◌<◌, ◌≤◌, ◌≡◌, ◌≢◌, ◌⊎◌, inl, inr, ap, sym, subst, ◌∙◌, refl, Bool, true,
  false, arith, ltb, ◌==◌, Bool-cases,
}
use plusplus_os.Machine.{
  Run, Cmd, Stop, ok, stop, assert_failed, out_of_bounds, id_mismatch, Ends, returns, stops, bind,
  mono, and_then, kernel_assert,
}
use plusplus_os.Acpi.{read_le}
use plusplus_os.Apic.{
  Apic, read_ioapic_id, read_ioapic_mre, read_ioapic_register, select_register, max_ioapic_count,
  max_lapic_count, max_8259_irq_count, local_apic_entry, io_apic_entry,
  interrupt_source_override_entry, local_apic_address_override_entry,
}
use plusplus_os.Apic.Setup.{
  add_lapic, override_gsi, load_ioapic, add_ioapic, parse_entry, parse_madt,
}

-- What the parsing of a MADT may stop for: it writes past one of its arrays, an IOAPIC has another id
-- than its entry says, or device memory cannot be mapped.
pub data Refused (unmapped : Stop → Type 0) : Stop → Type 0 where
  overrun : Refused unmapped out_of_bounds
  mismatch : Refused unmapped (assert_failed id_mismatch)
  unmappable : {e : Stop} → unmapped e → Refused unmapped e

-- Memory holds what it held.
abbrev pub KeepsBytes : {A X : Type 0} → (ℕ → ℕ) → A → Apic X → Type 0
KeepsBytes bytes a s = s.bytes ≡ bytes

-- The loop that starts at an address comes to the entry at `p`.
pub data Meets (bytes : ℕ → ℕ) (end p : ℕ) : ℕ → Type 0 where
  here : {curr_addr : ℕ} → curr_addr ≡ p → Meets bytes end p curr_addr
  there :
      {curr_addr : ℕ}
      → curr_addr < end
      → Meets bytes end p (curr_addr + bytes (curr_addr + 1))
      → Meets bytes end p curr_addr

-- The address of the local APIC after the entries from `curr_addr` on: that of the last of the
-- entries that give one, or `addr`.
pub data LapicAddress (bytes : ℕ → ℕ) (end result : ℕ) : ℕ → ℕ → Type 0 where
  at_end :
      {curr_addr addr : ℕ}
      → end ≤ curr_addr
      → addr ≡ result
      → LapicAddress bytes end result curr_addr addr
  given :
      {curr_addr addr : ℕ}
      → curr_addr < end
      → bytes curr_addr ≡ 5
      → LapicAddress bytes end result
          (curr_addr + bytes (curr_addr + 1))
          (read_le bytes 8 (curr_addr + 4))
      → LapicAddress bytes end result curr_addr addr
  passed :
      {curr_addr addr : ℕ}
      → curr_addr < end
      → bytes curr_addr ≢ 5
      → LapicAddress bytes end result (curr_addr + bytes (curr_addr + 1)) addr
      → LapicAddress bytes end result curr_addr addr

-- Memory holds what it held, and the result is the address of the local APIC.
abbrev pub Parsed : {X : Type 0} → (ℕ → ℕ) → ℕ → ℕ → ℕ → ℕ → Apic X → Type 0
Parsed bytes end curr_addr addr result s =
    (s.bytes ≡ bytes) × LapicAddress bytes end result curr_addr addr

allow :
    {S A : Type 0} {unmapped : Stop → Type 0} {P : A → S → Type 0} {r : Run S A}
    → Ends unmapped P r
    → Ends (Refused unmapped) P r
allow (returns p) = returns p
allow (stops e) = stops (unmappable e)

widen :
    {S A : Type 0} {D E : Stop → Type 0} {P : A → S → Type 0} {r : Run S A}
    → ((e : Stop) → D e → E e)
    → Ends D P r
    → Ends E P r
widen admit (returns p) = returns p
widen admit (stops e) = stops (admit _ e)

not_returned :
    {S A : Type 0} {E : Stop → Type 0} {r : Run S A}
    → Ends E (λ a t. ⊥) r
    → (a : A) (t : S) → r ≢ ok a t
not_returned (returns p) a t = absurd p
not_returned {E = E} {r = stop w} (stops e) a t = λ (eq : stop w ≡ ok a t). cc

module _ {X : Type 0} (unmapped : Stop → Type 0) (kmap_phys_range : ℕ → ℕ → ℕ → Cmd (Apic X) ℕ)
    (kmap_keeps : (phys pages flags : ℕ) (s : Apic X)
      → Ends unmapped (KeepsBytes s.bytes) (kmap_phys_range phys pages flags s)) where
  abbrev Keeps : {A : Type 0} → Cmd (Apic X) A → Type 0
  Keeps m =
      (bytes : ℕ → ℕ) (s : Apic X)
      → s.bytes ≡ bytes
      → Ends (Refused unmapped) (KeepsBytes bytes) (m s)

  kmap-Keeps : (phys pages flags : ℕ) → Keeps (kmap_phys_range phys pages flags)
  kmap-Keeps phys pages flags bytes s h =
      mono (allow (kmap_keeps phys pages flags s)) (λ a t e. e ∙ h)

  assert-Keeps : (b : Bool) → Keeps (kernel_assert b id_mismatch)
  assert-Keeps true bytes s h = returns h
  assert-Keeps false bytes s h = stops mismatch

  mre-Keeps : (ioapic : ℕ) → Keeps (read_ioapic_mre ioapic)
  unfolding read_ioapic_mre read_ioapic_register select_register
  mre-Keeps ioapic bytes s h = returns h

  id-Keeps : (ioapic : ℕ) → Keeps (read_ioapic_id ioapic)
  unfolding read_ioapic_id read_ioapic_register select_register
  id-Keeps ioapic bytes s h = returns h

  load_ioapic-Keeps : (entry i : ℕ) → Keeps (load_ioapic kmap_phys_range entry i)
  unfolding load_ioapic
  load_ioapic-Keeps entry i bytes s h = bind (kmap-Keeps _ 1 _ bytes _ h) λ v t ht.
      bind (mre-Keeps v bytes _ ht)
        λ m u hu. bind (id-Keeps v bytes _ hu) λ f w hw. assert-Keeps _ bytes w hw

  add_ioapic-Keeps : (entry : ℕ) → Keeps (add_ioapic kmap_phys_range entry)
  unfolding add_ioapic
  add_ioapic-Keeps entry bytes s h = elim (Bool-cases (ltb s.ioapic_count max_ioapic_count)) [
    | inl room ↦ rw room (load_ioapic-Keeps entry s.ioapic_count bytes s h)
    | inr full ↦ rw full (stops overrun)
  ]

  add_lapic-Keeps : (entry : ℕ) → Keeps {A = Unit {0}} (add_lapic entry)
  unfolding add_lapic
  add_lapic-Keeps entry bytes s h = elim (Bool-cases (ltb s.lapic_count max_lapic_count)) [
    | inl room ↦ rw room (returns h)
    | inr full ↦ rw full (stops overrun)
  ]

  override_gsi-Keeps : (entry : ℕ) → Keeps {A = Unit {0}} (override_gsi entry)
  unfolding override_gsi
  override_gsi-Keeps entry bytes s h =
      elim (Bool-cases (ltb (s.bytes (entry + 3)) max_8259_irq_count)) [
        | inl room ↦ rw room (returns h)
        | inr full ↦ rw full (stops overrun)
      ]

  -- What one entry makes of the address.
  abbrev AfterOne : (ℕ → ℕ) → ℕ → ℕ → ℕ → Apic X → Type 0
  AfterOne bytes entry addr a t =
      (t.bytes ≡ bytes)
      × ((bytes entry ≡ 5) × (a ≡ read_le bytes 8 (entry + 4)) ⊎ (bytes entry ≢ 5) × (a ≡ addr))

  parse_entry-AfterOne :
      (entry addr : ℕ) (bytes : ℕ → ℕ) (s : Apic X)
      → s.bytes ≡ bytes
      → Ends
          (Refused unmapped)
          (AfterOne bytes entry addr)
          (parse_entry kmap_phys_range entry addr s)
  unfolding parse_entry
  parse_entry-AfterOne entry addr bytes s h =
      let here : s.bytes entry ≡ bytes entry = ap (λ (b : ℕ → ℕ). b entry) h in
      elim (Bool-cases (s.bytes entry == local_apic_entry)) [
        | inl e ↦
            let other : bytes entry ≢ 5 = ground (arith, here) in
            rw e (bind (add_lapic-Keeps entry bytes s h) (λ a t e. returns (e, inr (other, refl))))
        | inr ne ↦ rw ne (elim (Bool-cases (s.bytes entry == io_apic_entry)) [
          | inl e ↦
              let other : bytes entry ≢ 5 = ground (arith, here) in
              rw e
                (bind (add_ioapic-Keeps entry bytes s h) (λ a t e. returns (e, inr (other, refl))))
          | inr ne2 ↦ rw ne2 (elim (Bool-cases (s.bytes entry == interrupt_source_override_entry)) [
            | inl e ↦
                let other : bytes entry ≢ 5 = ground (arith, here) in
                rw e (
                  bind (override_gsi-Keeps entry bytes s h)
                    (λ a t e. returns (e, inr (other, refl))))
            | inr ne3 ↦
                rw ne3 (elim (Bool-cases (s.bytes entry == local_apic_address_override_entry)) [
                  | inl e ↦
                      let type : bytes entry ≡ 5 = ground (arith, here) in
                      rw e (returns (h, inl (type, ap (λ (b : ℕ → ℕ). read_le b 8 (entry + 4)) h)))
                  | inr ne4 ↦
                      let other : bytes entry ≢ 5 = ground (arith, here) in
                      rw ne4 (returns (h, inr (other, refl)))
                ])
          ])
        ])
      ]

  one_entry :
      (fuel end curr addr : ℕ) (bytes : ℕ → ℕ) (s : Apic X)
      → s.bytes ≡ bytes
      → curr < end
      → {E : Stop → Type 0} {P : ℕ → Apic X → Type 0} → ((e : Stop) → Refused unmapped e → E e)
      → ((a : ℕ) (t : Apic X)
          → AfterOne bytes curr addr a t
          → Ends E P (parse_madt kmap_phys_range fuel end (curr + bytes (curr + 1)) a t))
      → Ends E P (parse_madt kmap_phys_range (suc fuel) end curr addr s)
  unfolding parse_madt
  one_entry fuel end curr addr bytes s h more {E} {P} admit next =
      let inside : ltb curr end ≡ true = ground arith in
      rw inside (
        subst
          (λ (b : ℕ → ℕ). Ends E P (
            and_then (parse_entry kmap_phys_range curr addr s)
              (λ a t. parse_madt kmap_phys_range fuel end (curr + b (curr + 1)) a t)))
          (sym h) (bind (widen admit (parse_entry-AfterOne curr addr bytes s h)) next))

  -- The address after the rest is the one after this entry.
  stepped :
      (bytes : ℕ → ℕ) (end curr addr a result : ℕ) (t u : Apic X)
      → curr < end
      → AfterOne bytes curr addr a t
      → Parsed bytes end (curr + bytes (curr + 1)) a result u
      → Parsed bytes end curr addr result u
  stepped bytes end curr addr a result t u inside (same, inl (type, e)) (keeps, rest) = (
    keeps,
    given inside type
        (subst (λ (b : ℕ). LapicAddress bytes end result (curr + bytes (curr + 1)) b) e rest),
  )
  stepped bytes end curr addr a result t u inside (same, inr (other, e)) (keeps, rest) = (
    keeps,
    passed inside other
        (subst (λ (b : ℕ). LapicAddress bytes end result (curr + bytes (curr + 1)) b) e rest),
  )

  rounds_enough :
      (fuel end curr addr : ℕ) (bytes : ℕ → ℕ) (s : Apic X)
      → s.bytes ≡ bytes
      → ((p : ℕ) → Meets bytes end p curr → p < end → 0 < bytes (p + 1))
      → end ≤ curr + fuel
      → Ends
          (Refused unmapped)
          (Parsed bytes end curr addr)
          (parse_madt kmap_phys_range (suc fuel) end curr addr s)
  unfolding parse_madt
  rounds_enough zero end curr addr bytes s h lengths enough =
      let over : ltb curr end ≡ false = ground arith in
      rw over (returns (h, at_end (omega arith) refl))
  rounds_enough (suc fuel) end curr addr bytes s h lengths enough =
      elim (Bool-cases (ltb curr end)) [
        | inl more ↦
            let inside : curr < end = ground arith in
            let long : 0 < bytes (curr + 1) = lengths curr (here refl) inside in
            one_entry (suc fuel) end curr addr bytes s h inside (λ e r. r)
              (λ a t same.
                mono
                  (rounds_enough fuel end (curr + bytes (curr + 1)) a bytes t same.0
                    (λ p m. lengths p (there inside m)) (omega arith))
                  (λ r u parsed. stepped bytes end curr addr a r t u inside same parsed))
        | inr over ↦ rw over (returns (h, at_end (ground arith) refl))
      ]

  never_returns :
      (fuel end p curr addr : ℕ) (bytes : ℕ → ℕ) (s : Apic X)
      → s.bytes ≡ bytes
      → Meets bytes end p curr
      → p < end
      → bytes (p + 1) ≡ 0
      → Ends (λ e. Unit {0}) (λ a t. ⊥) (parse_madt kmap_phys_range fuel end curr addr s)
  unfolding parse_madt
  never_returns zero end p curr addr bytes s h meets inside empty = stops tt
  never_returns (suc fuel) end p curr addr bytes s h (here e) inside empty =
      one_entry fuel end curr addr bytes s h (omega arith) (λ e r. tt)
        (λ a t same.
          never_returns fuel end p (curr + bytes (curr + 1)) a bytes t same.0
            (here (omega (arith, ap (λ (q : ℕ). bytes (q + 1)) e))) inside empty)
  never_returns (suc fuel) end p curr addr bytes s h (there more m) inside empty =
      one_entry fuel end curr addr bytes s h more (λ e r. tt)
        (λ a t same.
          never_returns fuel end p (curr + bytes (curr + 1)) a bytes t same.0 m inside empty)

  -- If no entry that the loop over the MADT comes to has length 0, then as many rounds as there are
  -- bytes and one more are enough: the loop ends with memory as it was and, as the local APIC's
  -- address, that of the last entry of the type that gives one, or the one it started with; or it
  -- stops because a table of the kernel is full, an IOAPIC's id is not that of its entry, or device
  -- memory cannot be mapped. Mapping must not change what memory holds.
  pub parse_madt_total :
      (fuel end curr addr : ℕ) (s : Apic X)
      → ((p : ℕ) → Meets s.bytes end p curr → p < end → 0 < s.bytes (p + 1))
      → end ≤ curr + fuel
      → Ends
          (Refused unmapped)
          (Parsed s.bytes end curr addr)
          (parse_madt kmap_phys_range (suc fuel) end curr addr s)
  parse_madt_total fuel end curr addr s lengths enough =
      rounds_enough fuel end curr addr s.bytes s refl lengths enough

  -- If the loop over the MADT comes to an entry of length 0 it never returns, however many rounds it
  -- makes: it goes on for ever, unless it stops for an error. Mapping must not change what memory
  -- holds.
  pub parse_madt_stuck :
      (end p curr addr : ℕ) (s : Apic X)
      → Meets s.bytes end p curr
      → p < end
      → s.bytes (p + 1) ≡ 0
      → (fuel : ℕ) (a : ℕ) (t : Apic X) → parse_madt kmap_phys_range fuel end curr addr s ≢ ok a t
  parse_madt_stuck end p curr addr s meets inside empty fuel a t returned =
      not_returned (never_returns fuel end p curr addr s.bytes s refl meets inside empty) a t
        returned

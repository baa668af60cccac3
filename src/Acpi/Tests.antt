-- ===== src/Acpi/Tests.antt =====
-- kernel/src/acpi.c: a table of 36 bytes at address 0, without its signature and checksum.
use plusplus_os.Base.{ℕ, ◌≡◌, refl, true, false, inr, List, [], ◌∷◌, arith, update}
use plusplus_os.Acpi.{
  read_le, same_bytes, sum_bytes, sdt_is_valid, MemRemap, get_virtual_acpi_address,
}
use plusplus_os.Memory.Orders.{range_contains, bound_contains}
use plusplus_os.Acpi.Checksum.{sdt_is_valid-update}

-- "XSDT", a length of 36 bytes, and the checksum in byte 9.
abbrev table : ℕ → ℕ
table = update (update (update (update (update (update (λ a. 0) 0 88) 1 83) 2 68) 3 84) 4 36) 9 153

table_valid : sdt_is_valid table 0 (88 ∷ 83 ∷ 68 ∷ 84 ∷ []) ≡ true
unfolding sdt_is_valid sum_bytes same_bytes read_le update
table_valid = refl

sdt_is_valid-update_example : sdt_is_valid (update table 20 7) 0 (88 ∷ 83 ∷ 68 ∷ 84 ∷ []) ≡ false
unfolding update read_le
sdt_is_valid-update_example =
    sdt_is_valid-update table 0 (88 ∷ 83 ∷ 68 ∷ 84 ∷ []) 20 7 table_valid (omega arith)
      (omega arith) (inr (omega arith)) (omega arith) (omega arith) (λ e. omega arith)

abbrev remaps : List MemRemap
remaps =
    record { phys = 0x1000; virt = 0xfffff00000001000; size = 0x2000 }
    ∷ record { phys = 0x8000; virt = 0xfffff00000009000; size = 0x1000 }
    ∷ []

translate_test : get_virtual_acpi_address remaps 0x8123 ≡ 0xfffff00000009123
unfolding get_virtual_acpi_address range_contains bound_contains
translate_test = refl

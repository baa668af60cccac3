-- ===== src/Keyboard.antt =====
-- kernel/src/ps2.c: the keyboard's interrupt handler and its registration. What the ports give is an
-- argument. ps2_getch, which waits for the handler, is not modelled.
pub mod Keys
mod Tests
use plusplus_os.Base.{
  ℕ, zero, suc, ◌+◌, ◌-◌, ◌*◌, ◌/◌, ◌%◌, ◌^◌, Bool, true, false, not, ◌||◌, Option, none, some,
  List, [], ◌∷◌, ◌++◌, ◌==◌, if◌then◌else◌, update, u8, u32, sub64, bit_and,
}
use plusplus_os.Machine.{Cmd, ok, stop, halt, assert_failed, no_keyboard_ioapic, pure, ◌>>=◌, ◌>>◌}
use plusplus_os.Apic.{
  Apic, LocalApic, get_responsible_ioapic, read_redtable_entry, write_redtable_entry,
}
use plusplus_os.Descriptors.{Idt, interrupt_gate, register_interrupt}

abbrev pub keycode_lshift : ℕ
keycode_lshift = 0x2a

abbrev pub keycode_rshift : ℕ
keycode_rshift = 0x36

-- g_kbstatus, g_last_char_changed and g_idt.
pub record Keyboard : Type 0 where
  pub kbstatus : ℕ → Bool
  pub last_char_changed : ℕ
  pub idt : Idt

-- An array with an initializer: the elements behind it are 0.
unfoldable pub element : List ℕ → ℕ → ℕ
element [] i = 0
element (c ∷ l) zero = c
element (c ∷ l) (suc i) = element l i

abbrev pub digit_keys : List ℕ
digit_keys = b'1' ∷ b'2' ∷ b'3' ∷ b'4' ∷ b'5' ∷ b'6' ∷ b'7' ∷ b'8' ∷ b'9' ∷ b'0' ∷ b'-' ∷ b'=' ∷ []

abbrev pub top_row : List ℕ
top_row = b'q' ∷ b'w' ∷ b'e' ∷ b'r' ∷ b't' ∷ b'y' ∷ b'u' ∷ b'i' ∷ b'o' ∷ b'p' ∷ b'[' ∷ b']' ∷ []

abbrev pub middle_row : List ℕ
middle_row = b'a' ∷ b's' ∷ b'd' ∷ b'f' ∷ b'g' ∷ b'h' ∷ b'j' ∷ b'k' ∷ b'l' ∷ b';' ∷ 39 ∷ b'`' ∷ []

abbrev pub bottom_row : List ℕ
bottom_row = 92 ∷ b'z' ∷ b'x' ∷ b'c' ∷ b'v' ∷ b'b' ∷ b'n' ∷ b'm' ∷ b',' ∷ b'.' ∷ b'/' ∷ []

unfoldable pub translation_table : List ℕ
translation_table =
    0 ∷ 0 ∷ digit_keys ++ (0 ∷ 0 ∷ top_row ++ (0 ∷ 0 ∷ middle_row ++ (0 ∷ bottom_row)))

abbrev pub shifted_digit_keys : List ℕ
shifted_digit_keys =
    b'!' ∷ b'@' ∷ b'#' ∷ b'$' ∷ b'%' ∷ b'^' ∷ b'&' ∷ b'*' ∷ b'(' ∷ b')' ∷ b'_' ∷ b'+' ∷ []

abbrev pub shifted_top_row : List ℕ
shifted_top_row =
    b'Q' ∷ b'W' ∷ b'E' ∷ b'R' ∷ b'T' ∷ b'Y' ∷ b'U' ∷ b'I' ∷ b'O' ∷ b'P' ∷ b'{' ∷ b'}' ∷ []

abbrev pub shifted_middle_row : List ℕ
shifted_middle_row =
    b'A' ∷ b'S' ∷ b'D' ∷ b'F' ∷ b'G' ∷ b'H' ∷ b'J' ∷ b'K' ∷ b'L' ∷ b':' ∷ 34 ∷ b'~' ∷ []

abbrev pub shifted_bottom_row : List ℕ
shifted_bottom_row = b'|' ∷ b'Z' ∷ b'X' ∷ b'C' ∷ b'V' ∷ b'B' ∷ b'N' ∷ b'M' ∷ b'<' ∷ b'>' ∷ b'?' ∷ []

unfoldable pub shift_translation_table : List ℕ
shift_translation_table =
    0 ∷ 0 ∷ shifted_digit_keys
    ++ (0 ∷ 0 ∷ shifted_top_row ++ (0 ∷ 0 ∷ shifted_middle_row ++ (0 ∷ shifted_bottom_row)))

unfoldable pub upper_case : (ℕ → Bool) → Bool
upper_case kbstatus = kbstatus keycode_lshift || kbstatus keycode_rshift

unfoldable pub scan_code_to_letter : (ℕ → Bool) → ℕ → ℕ
scan_code_to_letter kbstatus scan_code =
    element (if upper_case kbstatus then shift_translation_table else translation_table) scan_code

-- The key of `scan_code` is pressed or released.
unfoldable pub key_changed : ℕ → Bool → Keyboard → Keyboard
key_changed scan_code pressed k =
    let kbstatus = update k.kbstatus scan_code pressed in
    record k {
      kbstatus = kbstatus;
      last_char_changed =
          if pressed then scan_code_to_letter kbstatus scan_code else k.last_char_changed;
    }

-- `status` and `byte` are what the ports PS2_STATUS and PS2_KEYCODE give; `scan_code & ~0x80` of
-- 8 bits.
unfoldable pub kb_handler : ℕ → ℕ → Cmd (Apic Keyboard) (Unit {0})
kb_handler status byte s =
    if bit_and status 1 == 0
    then ok tt s
    else ok tt (record s {
      rest = key_changed (byte % 2 ^ 7) (bit_and byte 0x80 == 0) s.rest;
      lapic = record s.lapic { eoi = 0 };
    })

-- The bit-field of `width` bits from bit `low` on is assigned.
unfoldable pub set_field : ℕ → ℕ → ℕ → ℕ → ℕ
set_field low width value word =
    word - word / 2 ^ low % 2 ^ width * 2 ^ low + value % 2 ^ width * 2 ^ low

-- mask = 0, delivery_mode = 0, vector = 0x21 in the lower word.
unfoldable pub lower_entry : ℕ → ℕ
lower_entry lower_dword = set_field 0 8 0x21 (set_field 8 3 0 (set_field 16 1 0 lower_dword))

abbrev pub set_redtable_entry : ℕ → ℕ → ℕ × ℕ → Cmd (Apic Keyboard) (Unit {0})
set_redtable_entry ioapic irq (lower_dword, upper_dword) s =
    write_redtable_entry ioapic irq (lower_entry lower_dword)
      (set_field 24 8 s.lapic.id upper_dword) s

abbrev pub route_interrupt : ℕ → ℕ → Option ℕ → Cmd (Apic Keyboard) (Unit {0})
route_interrupt handler gsi none s = stop (assert_failed no_keyboard_ioapic)
route_interrupt handler gsi (some i) s =
    let ioapic = s.found_ioapics i in
    let irq = u32 (gsi + 2 ^ 32 - ioapic.gsi_offset) in
    (do
      entry ← read_redtable_entry ioapic.virtual_address irq
      set_redtable_entry ioapic.virtual_address irq entry
      (λ t. ok tt (record t {
        rest = record t.rest {
          idt = register_interrupt 0x21 interrupt_gate false handler t.rest.idt;
        };
      })))
      s

-- `handler` is the address of kb_handler.
unfoldable pub register_ps2_interrupt : ℕ → Cmd (Apic Keyboard) (Unit {0})
register_ps2_interrupt handler s =
    let gsi = (s.gsi_override_table 1).gsi in
    route_interrupt handler gsi (get_responsible_ioapic gsi s) s

-- ===== src/Screen/Tests.antt =====
-- kernel/src/rendering.c: numbers on a screen of 1024 by 768 pixels, with an empty font.
use plusplus_os.Base.{ℕ, ◌-◌, ◌*◌, ◌^◌, ◌≤◌, ◌≡◌, ◌⊎◌, refl, List, ◌∷◌, length, All, arith, update}
use plusplus_os.Machine.{result_or}
use plusplus_os.Screen.{
  Screen, put_pixel, put_columns, put_rows, put_char, put_from, put_string, write_digits,
  reverse_string, string_at, put_uint, put_int, clz, put_bits, put_binary_len, put_binary, put_hex,
}
use plusplus_os.Screen.Decimal.{IsDigit, Draws, read_decimal, put_uint_lem}
use plusplus_os.Screen.Hex.{read_hexadecimal, IsHexDigit, put_hex_lem}

abbrev screen : Screen
screen = record {
  address = 0xfffff00000100000;
  width = 1024;
  height = 768;
  pixels_per_scanline = 1024;
  bg_color = 0;
  fg_color = 0xffee2a7a;
  pixels = λ a. 0;
}

abbrev no_font : ℕ → ℕ
no_font i = 0

abbrev stack : ℕ → ℕ
stack i = 7

put_uint_lem_example :
    (text : List ℕ) × Draws no_font text 3 5 (put_uint no_font stack 2021 3 5)
    × All IsDigit text
    × (read_decimal 0 text ≡ 2021)
    × ((length text ≡ 1) ⊎ (10 ^ length text ≤ 2021 * 10))
put_uint_lem_example = put_uint_lem no_font stack 2021 3 5 (omega arith)

put_hex_lem_example :
    (digits : List ℕ) × Draws no_font (b'0' ∷ b'x' ∷ digits) 3 5 (put_hex no_font 0xbeef 3 5)
    × All IsHexDigit digits
    × (read_hexadecimal 0 digits ≡ 0xbeef)
    × (3 ≤ length digits)
    × (length digits ≤ 16)
put_hex_lem_example = put_hex_lem no_font 0xbeef 3 5 (omega arith)

-- -42 takes three characters.
put_int_test : result_or 0 (put_int no_font stack (2 ^ 64 - 42) 0 0 screen) ≡ 3
unfolding put_int put_uint put_string put_from put_char put_rows put_columns put_pixel write_digits
    reverse_string string_at update
put_int_test = refl

put_binary_test : result_or 0 (put_binary no_font 0b101 0 0 screen) ≡ 5
unfolding put_binary put_binary_len put_bits clz put_string put_from put_char put_rows put_columns
    put_pixel
put_binary_test = refl

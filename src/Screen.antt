-- ===== src/Screen.antt =====
-- kernel/src/rendering.c: the framebuffer and the printing of numbers. The glyphs of
-- kernel/include/font.h are an argument, a table of 1536 bytes. The framebuffer is a table of
-- pixels by their addresses, and a text is the list of its characters before the zero.
pub mod Digits
pub mod Decimal
pub mod Hex
mod Tests
use plusplus_os.Base.{
  ℕ, zero, suc, ◌+◌, ◌-◌, ◌*◌, ◌/◌, ◌%◌, ◌^◌, Bool, true, false, ◌&&◌, List, [], ◌∷◌, ltb, leb,
  ◌==◌, if◌then◌else◌, update, u8, u64, add64, mul64, ◌<<<◌, ◌>>>◌, bit_and,
}
use plusplus_os.Machine.{Cmd, ok, stop, out_of_bounds, pure, ◌>>=◌, ◌>>◌}

-- Framebuffer with g_bg_color, g_fg_color and what the screen's memory holds.
pub record Screen : Type 0 where
  pub address : ℕ
  pub width : ℕ
  pub height : ℕ
  pub pixels_per_scanline : ℕ
  pub bg_color : ℕ
  pub fg_color : ℕ
  pub pixels : ℕ → ℕ

unfoldable pub put_pixel : ℕ → ℕ → ℕ → Cmd Screen (Unit {0})
put_pixel x y color s = ok tt (record s {
  pixels = update s.pixels (u64 (s.address + 4 * s.pixels_per_scanline * y + 4 * x)) color;
})

-- The column of pixels of clear_screen at `x`, and the columns from `x` on: `left` is what is left
-- of the height and of the width.
unfoldable pub clear_column : ℕ → ℕ → ℕ → ℕ → Cmd Screen (Unit {0})
clear_column color x y zero = pure tt
clear_column color x y (suc left) = do put_pixel x y color; clear_column color x (y + 1) left

unfoldable pub clear_columns : ℕ → ℕ → ℕ → Cmd Screen (Unit {0})
clear_columns color x zero = pure tt
clear_columns color x (suc left) = do
  (λ s. clear_column color x 0 s.height s)
  clear_columns color (x + 1) left

unfoldable pub clear_screen : ℕ → Cmd Screen (Unit {0})
clear_screen color s = clear_columns color 0 s.width s

-- __builtin_clzll of a word of `width` bits
unfoldable pub clz : ℕ → ℕ → ℕ
clz zero value = 0
clz (suc width) value = if ltb value (2 ^ width) then suc (clz width value) else 0

-- The loop of put_uint that writes the digits, the lowest one first, to buf[ptr] and onwards. The
-- place behind the last digit, and the buffer. A 64-bit value has at most 20 digits.
unfoldable pub write_digits : ℕ → ℕ → ℕ → (ℕ → ℕ) → ℕ × (ℕ → ℕ)
write_digits zero value ptr buf = (ptr, buf)
write_digits (suc fuel) value ptr buf =
    let rest = write_digits fuel (value / 10) (ptr + 1) (update buf ptr (b'0' + value % 10)) in
    if value == 0 then (ptr, buf) else rest

abbrev pub swapped : (ℕ → ℕ) → ℕ → ℕ → ℕ → ℕ
swapped buf begin end = update (update buf begin (buf end)) end (buf begin)

-- The loop of put_uint that turns the string round.
unfoldable pub reverse_string : ℕ → ℕ → ℕ → (ℕ → ℕ) → ℕ → ℕ
reverse_string zero begin end buf = buf
reverse_string (suc fuel) begin end buf =
    let rest = reverse_string fuel (begin + 1) (end - 1) (swapped buf begin end) in
    if ltb begin end then rest else buf

-- The characters before the zero in `size` cells from `ptr` on.
unfoldable pub string_at : ℕ → ℕ → (ℕ → ℕ) → List ℕ
string_at zero ptr buf = []
string_at (suc size) ptr buf =
    let rest = string_at size (ptr + 1) buf in if buf ptr == 0 then [] else buf ptr ∷ rest

-- The digit of a nibble.
unfoldable pub hex_digit : ℕ → ℕ
hex_digit num = if leb 10 num then b'A' + num - 10 else b'0' + num

-- The loop of put_hex: the place of the largest nibble that is not zero, but 2 at least.
unfoldable pub largest_nibble : ℕ → ℕ → ℕ
largest_nibble zero value = 0
largest_nibble (suc nibbles) value =
    let rest = largest_nibble nibbles value in
    if ltb 2 (suc nibbles)
    then if bit_and value (0xf <<< (4 * nibbles)) == 0 then rest else nibbles
    else suc nibbles

module _ (font : ℕ → ℕ) where
  -- The first `n` of the columns 7, 6, .. of a row of a glyph, from the left; mask[cx] is
  -- 2 ^ (7 - cx).
  unfoldable pub put_columns : ℕ → ℕ → ℕ → ℕ → ℕ → ℕ → Cmd Screen (Unit {0})
  put_columns row x y fg bg zero = pure tt
  put_columns row x y fg bg (suc n) = do
    put_pixel (7 - n + x * 8) y (if bit_and row (2 ^ n) == 0 then bg else fg)
    put_columns row x y fg bg n

  unfoldable pub put_rows : ℕ → ℕ → ℕ → ℕ → ℕ → ℕ → Cmd Screen (Unit {0})
  put_rows glyph x y fg bg zero = pure tt
  put_rows glyph x y fg bg (suc n) = do
    put_columns (font (glyph + (15 - n))) x (15 - n + y * 16) fg bg 8
    put_rows glyph x y fg bg n

  -- The font has glyphs from the character 31 to the character 126; a `char` from 128 on is
  -- negative.
  unfoldable pub put_char : ℕ → ℕ → ℕ → ℕ → ℕ → Cmd Screen (Unit {0})
  put_char c x y fg bg =
      if leb 31 c && leb c 126
      then put_rows ((c - 31) * 16) x y fg bg 16
      else (λ s. stop out_of_bounds)

  abbrev pub put_fg : ℕ → ℕ → ℕ → Cmd Screen (Unit {0})
  put_fg c x y s = put_char c x y s.fg_color s.bg_color s

  unfoldable pub put_from : List ℕ → ℕ → ℕ → ℕ → Cmd Screen ℕ
  put_from [] i x y = pure i
  put_from (c ∷ str) i x y = do
    if leb b'!' c && ltb c b'~' then put_fg c (x + i) y else pure tt
    put_from str (i + 1) x y

  unfoldable pub put_string : List ℕ → ℕ → ℕ → Cmd Screen ℕ
  put_string str x y = put_from str 0 x y

  -- The loop of put_binary_len with `bits` rounds left.
  unfoldable pub put_bits : ℕ → ℕ → ℕ → ℕ → ℕ → Cmd Screen (Unit {0})
  put_bits value x y i zero = pure tt
  put_bits value x y i (suc bits) = do
    put_fg (b'0' + bit_and (value >>> bits) 1) (x + 2 + i) y
    put_bits value x y (i + 1) bits

  unfoldable pub put_binary_len : ℕ → ℕ → ℕ → ℕ → Cmd Screen (Unit {0})
  put_binary_len value x y bits = do put_string (b'0' ∷ b'b' ∷ []) x y; put_bits value x y 0 bits

  unfoldable pub put_binary : ℕ → ℕ → ℕ → Cmd Screen ℕ
  put_binary value x y =
      if value == 0
      then (put_string (b'0' ∷ b'b' ∷ b'0' ∷ []) x y >> pure 3)
      else (put_binary_len value x y (64 - clz 64 value) >> pure (2 + 64 - clz 64 value))

  unfoldable pub put_binary_32 : ℕ → ℕ → ℕ → Cmd Screen (Unit {0})
  put_binary_32 value x y = put_binary_len value x y 32

  unfoldable pub put_binary_64 : ℕ → ℕ → ℕ → Cmd Screen (Unit {0})
  put_binary_64 value x y = put_binary_len value x y 64

  -- `buf` is what the stack held.
  abbrev pub put_digits : ℕ × (ℕ → ℕ) → ℕ → ℕ → Cmd Screen ℕ
  put_digits (ptr, buf) x y = do
    put_string (string_at 21 0 (reverse_string 21 0 (ptr - 1) (update buf ptr 0))) x y
    pure ptr

  unfoldable pub put_uint : (ℕ → ℕ) → ℕ → ℕ → ℕ → Cmd Screen ℕ
  put_uint buf value x y =
      if value == 0
      then (put_fg b'0' x y >> pure 1)
      else put_digits (write_digits 21 value 0 buf) x y

  -- `value` is the bit pattern of an int64_t.
  unfoldable pub put_int : (ℕ → ℕ) → ℕ → ℕ → ℕ → Cmd Screen ℕ
  put_int buf value x y =
      if leb (2 ^ 63) value
      then (do
        put_fg b'-' x y
        count ← put_uint buf (u64 (2 ^ 64 - value)) (x + 1) y
        pure (count + 1))
      else put_uint buf value x y

  -- The loop of put_hex_len with `left` rounds left.
  unfoldable pub put_nibbles : ℕ → ℕ → ℕ → ℕ → ℕ → Cmd Screen (Unit {0})
  put_nibbles value x y i zero = pure tt
  put_nibbles value x y i (suc left) = do
    put_fg (hex_digit (bit_and value (0xf <<< (left * 4)) >>> (left * 4))) (x + 2 + i) y
    put_nibbles value x y (i + 1) left

  unfoldable pub put_hex_len : ℕ → ℕ → ℕ → ℕ → Cmd Screen (Unit {0})
  put_hex_len value x y nibbles = do
    put_fg b'0' x y
    put_fg b'x' (x + 1) y
    put_nibbles value x y 0 nibbles

  unfoldable pub put_hex : ℕ → ℕ → ℕ → Cmd Screen ℕ
  put_hex value x y = do
    put_hex_len value x y (suc (largest_nibble 16 value))
    pure (suc (largest_nibble 16 value) + 2)

  unfoldable pub put_hex_32 : ℕ → ℕ → ℕ → Cmd Screen (Unit {0})
  put_hex_32 value x y = put_hex_len value x y 8

  unfoldable pub put_hex_64 : ℕ → ℕ → ℕ → Cmd Screen (Unit {0})
  put_hex_64 value x y = put_hex_len value x y 16

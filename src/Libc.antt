-- ===== src/Libc.antt =====
-- libc: the functions on memory and strings (libc/src/string) and atoi, atol and atoll
-- (libc/src/stdlib). Memory is a table of bytes; a string is the list of its bytes without the
-- zero at its end. `char` is signed.
pub mod Copies
pub mod Compares
pub mod Numbers
mod Tests
use plusplus_os.Base.{
  ℕ, zero, suc, ◌+◌, ◌-◌, ◌*◌, ◌%◌, ◌^◌, Bool, true, false, not, ◌&&◌, Option, none, some, List, [],
  ◌∷◌, ltb, leb, ◌==◌, if◌then◌else◌, update, u8,
}

-- int, long int and long long int, as long as the value fits.
pub data ℤ : Type 0 where
  pos : ℕ → ℤ
  negsuc : ℕ → ℤ

-- m - n
abbrev pub difference : ℕ → ℕ → ℤ
difference m n = if leb n m then pos (m - n) else negsuc (n - m - 1)

-- (-1) * n
abbrev pub negated : ℕ → ℤ
negated zero = pos zero
negated (suc n) = negsuc n

-- The value of a byte as a `char`, plus 128.
unfoldable pub char_value : ℕ → ℕ
char_value b = (b + 128) % 2 ^ 8

-- for (i; left more rounds) to[i] = from[i]
unfoldable pub copy_up : ℕ → ℕ → ℕ → ℕ → (ℕ → ℕ) → ℕ → ℕ
copy_up zero i to from memory = memory
copy_up (suc left) i to from memory =
    copy_up left (i + 1) to from (update memory (to + i) (memory (from + i)))

-- The other direction, from[n - 1] first.
unfoldable pub copy_down : ℕ → ℕ → ℕ → (ℕ → ℕ) → ℕ → ℕ
copy_down zero to from memory = memory
copy_down (suc n) to from memory = copy_down n to from (update memory (to + n) (memory (from + n)))

unfoldable pub memcpy : ℕ → ℕ → ℕ → (ℕ → ℕ) → ℕ → ℕ
memcpy dest src n memory = copy_up n 0 dest src memory

unfoldable pub memmove : ℕ → ℕ → ℕ → (ℕ → ℕ) → ℕ → ℕ
memmove dest src n memory =
    if ltb dest src then copy_up n 0 dest src memory else copy_down n dest src memory

unfoldable pub fill_up : ℕ → ℕ → ℕ → ℕ → (ℕ → ℕ) → ℕ → ℕ
fill_up zero i to data_byte memory = memory
fill_up (suc left) i to data_byte memory =
    fill_up left (i + 1) to data_byte (update memory (to + i) data_byte)

unfoldable pub memset : ℕ → ℕ → ℕ → (ℕ → ℕ) → ℕ → ℕ
memset str c n memory = fill_up n 0 str (u8 c) memory

-- From index `i` on, `left` more rounds.
unfoldable pub compare_from : ℕ → ℕ → ℕ → ℕ → (ℕ → ℕ) → ℤ
compare_from zero i str1 str2 memory = pos 0
compare_from (suc left) i str1 str2 memory =
    let rest = compare_from left (i + 1) str1 str2 memory in
    if char_value (memory (str1 + i)) == char_value (memory (str2 + i))
    then rest
    else difference (char_value (memory (str1 + i))) (char_value (memory (str2 + i)))

unfoldable pub memcmp : ℕ → ℕ → ℕ → (ℕ → ℕ) → ℤ
memcmp str1 str2 n memory = compare_from n 0 str1 str2 memory

-- *str
abbrev pub first_char : List ℕ → ℕ
first_char [] = 0
first_char (c ∷ str) = c

unfoldable pub strcmp : List ℕ → List ℕ → ℤ
strcmp [] str2 = difference (char_value 0) (char_value (first_char str2))
strcmp (c ∷ str1) [] = difference (char_value c) (char_value 0)
strcmp (c ∷ str1) (d ∷ str2) =
    let rest = strcmp str1 str2 in if c == d then rest else difference (char_value c) (char_value d)

unfoldable pub skip_spaces : List ℕ → List ℕ
skip_spaces [] = []
skip_spaces (c ∷ str) = let rest = skip_spaces str in if c == 0x20 then rest else c ∷ str

-- *str - '0' > 0 && *str - '0' < 10, for a signed char: false from 128 on as well.
abbrev pub is_read : ℕ → Bool
is_read c = ltb 0x30 c && ltb c 0x3a

-- The loop over the digits, for an integer type with the values from -limit to limit - 1. Overflow
-- of a signed integer is undefined: the result is then none.
unfoldable pub read_digits : ℕ → List ℕ → ℕ → Option ℕ
read_digits limit [] res = some res
read_digits limit (c ∷ str) res =
    let next = c - 0x30 + 10 * res in
    let rest = read_digits limit str next in
    if is_read c then (if ltb next limit then rest else none) else some res

-- `return (-1) * res` or `return res`
abbrev pub signed : Bool → Option ℕ → Option ℤ
signed sign none = none
signed sign (some res) = some (if sign then negated res else pos res)

unfoldable pub read_signed : ℕ → List ℕ → Option ℤ
read_signed limit [] = some (pos 0)
read_signed limit (c ∷ str) =
    if c == 0x2d
    then signed true (read_digits limit str 0)
    else if c == 0x2b
    then signed false (read_digits limit str 0)
    else signed false (read_digits limit (c ∷ str) 0)

-- int has 32 bits, long and long long have 64.
unfoldable pub atoi : List ℕ → Option ℤ
atoi str = read_signed (2 ^ 31) (skip_spaces str)

unfoldable pub atol : List ℕ → Option ℤ
atol str = read_signed (2 ^ 63) (skip_spaces str)

unfoldable pub atoll : List ℕ → Option ℤ
atoll str = read_signed (2 ^ 63) (skip_spaces str)

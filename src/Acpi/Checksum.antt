-- ===== src/Acpi/Checksum.antt =====
-- kernel/src/acpi.c: what the checksum of a table catches.
use plusplus_os.Base.{
  ℕ, zero, suc, ◌+◌, ◌%◌, ◌^◌, ◌<◌, ◌≤◌, ◌≡◌, ◌≢◌, ◌↔◌, ◌⊎◌, inl, inr, ap, refl, true, false, List,
  [], ◌∷◌, arith, update, update_same, update_other, ◌==◌, Bool-cases,
}
use plusplus_os.Acpi.{read_le, same_bytes, sum_bytes, sdt_length, sdt_is_valid}

-- The sum of `n` bytes.
unfoldable pub total : (ℕ → ℕ) → ℕ → ℕ → ℕ
total bytes ptr zero = 0
total bytes ptr (suc n) = bytes ptr + total bytes (ptr + 1) n

-- The text lies at `ptr`.
abbrev pub TextAt : (ℕ → ℕ) → ℕ → List ℕ → Type 0
TextAt bytes ptr [] = Unit
TextAt bytes ptr (c ∷ text) = (bytes ptr ≡ c) × TextAt bytes (ptr + 1) text

sum_bytes-total :
    (bytes : ℕ → ℕ) (sum ptr n : ℕ)
    → sum < 2 ^ 8
    → sum_bytes bytes sum ptr n ≡ (sum + total bytes ptr n) % 2 ^ 8
unfolding sum_bytes total
sum_bytes-total bytes sum ptr zero h = omega arith
sum_bytes-total bytes sum ptr (suc n) h =
    omega (arith, sum_bytes-total bytes ((sum + bytes ptr) % 2 ^ 8) (ptr + 1) n (omega arith))

same_bytes-TextAt :
    (bytes : ℕ → ℕ) (ptr : ℕ) (text : List ℕ)
    → (same_bytes bytes ptr text ≡ true) ↔ TextAt bytes ptr text
unfolding same_bytes
same_bytes-TextAt bytes ptr [] = (λ h. tt, λ h. refl)
same_bytes-TextAt bytes ptr (c ∷ text) = (
  λ h. ground (arith, (same_bytes-TextAt bytes (ptr + 1) text).0),
  λ h. ground (arith, (same_bytes-TextAt bytes (ptr + 1) text).1 h.1),
)

-- A table is valid when it has the signature and its bytes add up to a multiple of 256.
pub sdt_is_valid_lem :
    (bytes : ℕ → ℕ) (sdt : ℕ) (signature : List ℕ)
    → (sdt_is_valid bytes sdt signature ≡ true)
      ↔ (TextAt bytes sdt signature × (total bytes sdt (sdt_length bytes sdt) % 2 ^ 8 ≡ 0))
unfolding sdt_is_valid
sdt_is_valid_lem bytes sdt signature =
    let sum : sum_bytes bytes 0 sdt (sdt_length bytes sdt)
        ≡ total bytes sdt (sdt_length bytes sdt) % 2 ^ 8 =
      omega (arith, sum_bytes-total bytes 0 sdt (sdt_length bytes sdt) (omega arith)) in
    (
      λ h. ((same_bytes-TextAt bytes sdt signature).0 (ground arith), ground (arith, sum)),
      λ h. ground (arith, sum, (same_bytes-TextAt bytes sdt signature).1 h.0),
    )

total-update_outside :
    (bytes : ℕ → ℕ) (a v ptr n : ℕ)
    → (a < ptr) ⊎ (ptr + n ≤ a)
    → total (update bytes a v) ptr n ≡ total bytes ptr n
unfolding total
total-update_outside bytes a v ptr zero h = refl
total-update_outside bytes a v ptr (suc n) h = omega (
  arith,
  update_other bytes a ptr v (λ e. ground arith),
  total-update_outside bytes a v (ptr + 1) n (ground arith),
)

total-update :
    (bytes : ℕ → ℕ) (a v ptr n : ℕ)
    → ptr ≤ a
    → a < ptr + n
    → total (update bytes a v) ptr n + bytes a ≡ total bytes ptr n + v
unfolding total
total-update bytes a v ptr zero low high = absurd (omega arith)
total-update bytes a v ptr (suc n) low high = elim (Bool-cases (ptr == a)) [
  | inl e ↦
      let here : ptr ≡ a = ground arith in
      omega (
        arith,
        ap bytes here,
        ap (update bytes a v) here,
        update_same bytes a v,
        total-update_outside bytes a v (ptr + 1) n (inl (omega arith)),
      )
  | inr e ↦
      let ne : ptr ≢ a = λ (p : ptr ≡ a). ground arith in
      omega (
        arith,
        update_other bytes a ptr v ne,
        total-update bytes a v (ptr + 1) n (ground arith) (omega arith),
      )
]

sdt_length-update :
    (bytes : ℕ → ℕ) (a v sdt : ℕ)
    → (a < sdt + 4) ⊎ (sdt + 8 ≤ a)
    → sdt_length (update bytes a v) sdt ≡ sdt_length bytes sdt
unfolding read_le
sdt_length-update bytes a v sdt h = omega (
  arith,
  update_other bytes a (sdt + 4) v (λ e. ground arith),
  update_other bytes a (sdt + 4 + 1) v (λ e. ground arith),
  update_other bytes a (sdt + 4 + 1 + 1) v (λ e. ground arith),
  update_other bytes a (sdt + 4 + 1 + 1 + 1) v (λ e. ground arith),
)

-- If one byte of a valid table is changed to another value, and it is not one of the four bytes of
-- the table's length, the table is not valid any more.
pub sdt_is_valid-update :
    (bytes : ℕ → ℕ) (sdt : ℕ) (signature : List ℕ) (a v : ℕ)
    → sdt_is_valid bytes sdt signature ≡ true
    → sdt ≤ a
    → a < sdt + sdt_length bytes sdt
    → (a < sdt + 4) ⊎ (sdt + 8 ≤ a)
    → bytes a < 2 ^ 8
    → v < 2 ^ 8
    → v ≢ bytes a
    → sdt_is_valid (update bytes a v) sdt signature ≡ false
sdt_is_valid-update bytes sdt signature a v valid low high outside old new ne =
    elim (Bool-cases (sdt_is_valid (update bytes a v) sdt signature)) [
      | inl still ↦
          let before = (sdt_is_valid_lem bytes sdt signature).0 valid in
          let after = (sdt_is_valid_lem (update bytes a v) sdt signature).0 still in
          absurd (
            ne (
              omega (
                arith,
                before.1,
                after.1,
                ap (λ (n : ℕ). total (update bytes a v) sdt n)
                    (sdt_length-update bytes a v sdt outside),
                total-update bytes a v sdt (sdt_length bytes sdt) low high,
              )))
      | inr broken ↦ broken
    ]

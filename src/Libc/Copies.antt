-- ===== src/Libc/Copies.antt =====
-- memcpy, memmove and memset.
use plusplus_os.Base.{
  ℕ, zero, suc, ◌+◌, ◌-◌, ◌%◌, ◌^◌, ◌≤◌, ◌<◌, ◌≡◌, ◌≢◌, ◌⊎◌, refl, sym, ap, arith, ◌∙◌, ◌&&◌, inl,
  inr, ltb, leb, ◌==◌, if◌then◌else◌, update, update_same, update_other, Bool-cases,
}
use plusplus_os.Libc.{copy_up, copy_down, fill_up, memcpy, memmove, memset}

-- The bytes from `to` on are those that were at `from`, `n` of them from index `i` on, and all
-- others are as before.
pub record Copied (i n to from : ℕ) (before after : ℕ → ℕ) : Type 0 where
  pub inside : (j : ℕ) → i ≤ j → j < i + n → after (to + j) ≡ before (from + j)
  pub outside : (x : ℕ) → (x < to + i) ⊎ (to + (i + n) ≤ x) → after x ≡ before x

copy_up-Copied :
    (n i to from : ℕ) (memory : ℕ → ℕ)
    → ((a b : ℕ) → i ≤ a → a < b → b < i + n → from + b ≢ to + a)
    → Copied i n to from memory (copy_up n i to from memory)
unfolding copy_up
copy_up-Copied zero i to from memory apart = record {
  inside = λ j ge lt. absurd (omega arith);
  outside = λ x h. refl;
}
copy_up-Copied (suc n) i to from memory apart =
    let step = update memory (to + i) (memory (from + i)) in
    let rest =
      copy_up-Copied n (i + 1) to from step
        λ a b le lt low. apart a b (omega arith) lt (omega arith) in
    record {
      inside = λ j ge lt. elim (Bool-cases (j == i)) [
        | inl e ↦
            let same : j ≡ i = ground arith in
            rw same (rest.outside (to + i) (inl (omega arith)) ∙ update_same memory (to + i) _)
        | inr e ↦
            rest.inside j (ground arith) (omega arith)
            ∙ update_other memory (to + i) (from + j) _ (apart i j (omega arith) (ground arith) lt)
      ];
      outside = λ x h. elim h [
        | inl below ↦
            rest.outside x (inl (omega arith)) ∙ update_other memory (to + i) x _ (omega arith)
        | inr above ↦
            rest.outside x (inr (omega arith)) ∙ update_other memory (to + i) x _ (omega arith)
      ];
    }

copy_down-Copied :
    (n to from : ℕ) (memory : ℕ → ℕ)
    → from ≤ to
    → Copied 0 n to from memory (copy_down n to from memory)
unfolding copy_down
copy_down-Copied zero to from memory le = record {
  inside = λ j ge lt. absurd (omega arith);
  outside = λ x h. refl;
}
copy_down-Copied (suc n) to from memory le =
    let step = update memory (to + n) (memory (from + n)) in
    let rest = copy_down-Copied n to from step le in
    record {
      inside = λ j ge lt. elim (Bool-cases (j == n)) [
        | inl e ↦
            let same : j ≡ n = ground arith in
            rw same (rest.outside (to + n) (inr (omega arith)) ∙ update_same memory (to + n) _)
        | inr e ↦
            rest.inside j ge (ground arith)
            ∙ update_other memory (to + n) (from + j) _ (ground arith)
      ];
      outside = λ x h. elim h [
        | inl below ↦
            rest.outside x (inl (omega arith)) ∙ update_other memory (to + n) x _ (omega arith)
        | inr above ↦
            rest.outside x (inr (omega arith)) ∙ update_other memory (to + n) x _ (omega arith)
      ];
    }

-- memmove copies the bytes that were at `src` before, also where the two areas overlap, and
-- changes no other byte.
pub memmove_lem :
    (dest src n : ℕ) (memory : ℕ → ℕ) → Copied 0 n dest src memory (memmove dest src n memory)
unfolding memmove
memmove_lem dest src n memory = elim (Bool-cases (ltb dest src)) [
  | inl lt ↦ rw lt (copy_up-Copied n 0 dest src memory λ a b le up low. ground arith)
  | inr ge ↦ rw ge (copy_down-Copied n dest src memory (ground arith))
]

Copied-unique :
    (n to from : ℕ) (before f g : ℕ → ℕ)
    → Copied 0 n to from before f
    → Copied 0 n to from before g
    → (x : ℕ) → f x ≡ g x
Copied-unique n to from before f g p q x = elim (Bool-cases (ltb x to)) [
  | inl below ↦ p.outside x (inl (ground arith)) ∙ sym (q.outside x (inl (ground arith)))
  | inr ge ↦ elim (Bool-cases (leb (to + n) x)) [
    | inl above ↦ p.outside x (inr (ground arith)) ∙ sym (q.outside x (inr (ground arith)))
    | inr lt ↦
        let at : x ≡ to + (x - to) = ground arith in
        ap f at
        ∙ p.inside (x - to) (omega arith) (ground arith)
        ∙ sym (q.inside (x - to) (omega arith) (ground arith))
        ∙ ap g (sym at)
  ]
]

memcpy-Copied :
    (dest src n : ℕ) (memory : ℕ → ℕ)
    → (dest + n ≤ src) ⊎ (src + n ≤ dest)
    → Copied 0 n dest src memory (memcpy dest src n memory)
unfolding memcpy
memcpy-Copied dest src n memory (inl below) =
    copy_up-Copied n 0 dest src memory λ a b le up low. omega arith
memcpy-Copied dest src n memory (inr above) =
    copy_up-Copied n 0 dest src memory λ a b le up low. omega arith

-- memcpy does what memmove does when the areas do not overlap.
pub memcpy-memmove :
    (dest src n : ℕ) (memory : ℕ → ℕ)
    → (dest + n ≤ src) ⊎ (src + n ≤ dest)
    → (x : ℕ) → memcpy dest src n memory x ≡ memmove dest src n memory x
memcpy-memmove dest src n memory apart =
    Copied-unique n dest src memory _ _ (memcpy-Copied dest src n memory apart)
      (memmove_lem dest src n memory)

fill_up_lem :
    (n i to byte : ℕ) (memory : ℕ → ℕ) (x : ℕ)
    → fill_up n i to byte memory x
      ≡ (if leb (to + i) x && ltb x (to + (i + n)) then byte else memory x)
unfolding fill_up update
fill_up_lem zero i to byte memory x = ground arith
fill_up_lem (suc n) i to byte memory x =
    fill_up_lem n (i + 1) to byte (update memory (to + i) byte) x ∙ ground arith

-- memset writes the lowest byte of `c` to the `n` bytes from `str` on, and changes no other byte.
pub memset_lem :
    (str c n : ℕ) (memory : ℕ → ℕ) (x : ℕ)
    → memset str c n memory x ≡ (if leb str x && ltb x (str + n) then c % 2 ^ 8 else memory x)
unfolding memset
memset_lem str c n memory x = fill_up_lem n 0 str (c % 2 ^ 8) memory x ∙ ground arith

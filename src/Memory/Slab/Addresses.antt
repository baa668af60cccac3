-- ===== src/Memory/Slab/Addresses.antt =====
-- kernel/src/memory/slab_allocator.c: the addresses of the objects of a slab.
use native.Mathlib.Nat.{pow-suc, one-le-pow, mul_left_comm}
use plusplus_os.Base.{ℕ, suc, ◌+◌, ◌-◌, ◌*◌, ◌%◌, ◌^◌, ◌<◌, ◌≤◌, ◌≡◌, ap, arith, ◌∙◌, add64, u32}

pub step_le : (i count size : ℕ) → i < count → i * size + size ≤ count * size
step_le i count size lt = grind arith

four_more : (k : ℕ) → 2 ^ suc (suc (suc (suc k))) ≡ 16 * 2 ^ k
four_more k =
    omega (
      arith,
      pow-suc 2 k,
      pow-suc 2 (suc k),
      pow-suc 2 (suc (suc k)),
      pow-suc 2 (suc (suc (suc k))),
    )

pub size_lem :
    (size order : ℕ) → 4 ≤ order → size ≡ 2 ^ order → (size ≡ 16 * 2 ^ (order - 4)) × (16 ≤ size)
size_lem size order lo e =
    let same : order ≡ suc (suc (suc (suc (order - 4)))) = omega arith in
    let wide : size ≡ 16 * 2 ^ (order - 4) = e ∙ ap (λ k. 2 ^ k) same ∙ four_more (order - 4) in
    (wide, omega (arith, wide, one-le-pow (order - 4) 2 (omega arith)))

pub le_product : (count size : ℕ) → 16 ≤ size → count ≤ count * size
le_product count size h = grind arith

pub multiple_aligned : (mem i size q : ℕ) → mem % 16 ≡ 0 → size ≡ 16 * q → (mem + i * size) % 16 ≡ 0
multiple_aligned mem i size q h wide =
    let multiple : i * size ≡ 16 * (i * q) = ap (λ x. i * x) wide ∙ mul_left_comm i 16 q in
    omega (arith, multiple)

pub object_address :
    (mem i n size count mem_size : ℕ)
    → n ≡ i
    → mem_size ≡ count * size
    → mem + mem_size < 2 ^ 64
    → mem_size < 2 ^ 32
    → 0 < size
    → i < count
    → add64 mem (u32 (n * size)) ≡ mem + i * size
object_address mem i n size count mem_size e f room small pos lt =
    omega (arith, step_le i count size lt, ap (λ x. x * size) e)

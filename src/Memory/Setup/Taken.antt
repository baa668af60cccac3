-- ===== src/Memory/Setup/Taken.antt =====
-- What alloc_frame_allocator_memory takes from the memory map.
use plusplus_os.Base.{
  ℕ, ◌+◌, ◌*◌, ◌^◌, ◌<◌, ◌≤◌, ◌≡◌, ◌⊎◌, refl, ap, sym, arith, ◌∙◌, Bool, true, false, ◌&&◌, ◌||◌,
  ◌==◌, List, [], ◌∷◌, All, ltb, leb, one_if, add64, sub64, mul64, inl, inr, Bool-cases,
}
use plusplus_os.Uefi.{MemoryDescriptor}
use plusplus_os.Memory.Setup.{
  correct_type, is_suitable, take_pages, total_pages, alloc_frame_allocator_memory,
}

-- Whether `x` lies in `pages` pages at `start`.
abbrev pub in_pages : ℕ → ℕ → ℕ → Bool
in_pages start pages x = leb start x && ltb x (start + pages * 4096)

-- Code of the boot and of the runtime services, and conventional memory.
abbrev pub usable_type : MemoryDescriptor → Bool
usable_type d = d.desc_type == 3 || d.desc_type == 5 || d.desc_type == 7

-- A descriptor of another type, below 1 MiB, or with less than so many pages.
abbrev pub IsTooSmall : ℕ → MemoryDescriptor → Type 0
IsTooSmall pages d = (usable_type d ≡ false) ⊎ (d.physical_start < 0x100000) ⊎ (d.num_pages < pages)

-- How many usable descriptors contain `x`.
abbrev pub usable_at : List MemoryDescriptor → ℕ → ℕ
usable_at [] x = 0
usable_at (d ∷ l) x =
    one_if (usable_type d && in_pages d.physical_start d.num_pages x) + usable_at l x

abbrev pub Fits : MemoryDescriptor → Type 0
Fits d = d.physical_start + d.num_pages * 4096 < 2 ^ 64

first_part :
    (start n pages x : ℕ)
    → pages ≤ n
    → start + n * 4096 < 2 ^ 64
    → one_if (in_pages start n x)
      ≡ one_if (in_pages start pages x)
        + one_if (in_pages (add64 start (mul64 pages 4096)) (sub64 n pages) x)
first_part start n pages x le fits = ground arith

-- Nothing is taken, or a part at the start of a usable descriptor above the first 1 MiB.
abbrev pub IsTaken : ℕ → List MemoryDescriptor → ℕ → List MemoryDescriptor → Type 0
IsTaken pages before start after =
    (start ≡ 0) × (after ≡ before) × All (IsTooSmall pages) before
    ⊎ (0x100000 ≤ start)
      × ((x : ℕ) → usable_at before x ≡ one_if (in_pages start pages x) + usable_at after x)

correct_type_lem : (d : MemoryDescriptor) → correct_type d ≡ usable_type d
unfolding correct_type
correct_type_lem d = ground arith

is_suitable_means :
    (pages : ℕ) (d : MemoryDescriptor)
    → is_suitable pages d ≡ true
    → (usable_type d ≡ true) × (0x100000 ≤ d.physical_start) × (pages ≤ d.num_pages)
unfolding is_suitable
is_suitable_means pages d e = (sym (correct_type_lem d) ∙ ground arith, ground arith, ground arith)

is_suitable-IsTooSmall :
    (pages : ℕ) (d : MemoryDescriptor) → is_suitable pages d ≡ false → IsTooSmall pages d
unfolding is_suitable
is_suitable-IsTooSmall pages d e = ground (arith, correct_type_lem d)

-- What is left of a descriptor.
abbrev remainder : ℕ → MemoryDescriptor → MemoryDescriptor
remainder pages d = record d {
  num_pages = sub64 d.num_pages pages;
  physical_start = add64 d.physical_start (mul64 pages 4096);
}

remainder-usable :
    (pages : ℕ) (d : MemoryDescriptor) (l : List MemoryDescriptor) (x : ℕ)
    → Fits d
    → is_suitable pages d ≡ true
    → usable_at (d ∷ l) x
      ≡ one_if (in_pages d.physical_start pages x) + usable_at (remainder pages d ∷ l) x
remainder-usable pages d l x fits e =
    let (right, above, enough) = is_suitable_means pages d e in
    rw right ((omega (arith, first_part d.physical_start d.num_pages pages x enough fits)))

take_pages_none : (pages : ℕ) → IsTaken pages [] (take_pages pages []).0 (take_pages pages []).1
unfolding take_pages
take_pages_none pages = inl (refl, refl, tt)

take_pages_here :
    (pages : ℕ) (d : MemoryDescriptor) (l : List MemoryDescriptor)
    → is_suitable pages d ≡ true
    → take_pages pages (d ∷ l) ≡ (d.physical_start, remainder pages d ∷ l)
unfolding take_pages
take_pages_here pages d l e = rw e refl

take_pages_later :
    (pages : ℕ) (d : MemoryDescriptor) (l : List MemoryDescriptor)
    → is_suitable pages d ≡ false
    → take_pages pages (d ∷ l) ≡ ((take_pages pages l).0, d ∷ (take_pages pages l).1)
unfolding take_pages
take_pages_later pages d l e = rw e refl

take_pages_lem :
    (pages : ℕ) (l : List MemoryDescriptor)
    → All Fits l
    → IsTaken pages l (take_pages pages l).0 (take_pages pages l).1
take_pages_lem pages [] fits = take_pages_none pages
take_pages_lem pages (d ∷ l) fits = elim (Bool-cases (is_suitable pages d)) [
  | inl e ↦
      rw (take_pages_here pages d l e)
        (inr ((is_suitable_means pages d e).1, λ x. remainder-usable pages d l x fits.0 e))
  | inr e ↦ rw (take_pages_later pages d l e) (elim (take_pages_lem pages l fits.1) [
    | inl none ↦ inl (none.0, ap (λ m. d ∷ m) none.1, (is_suitable-IsTooSmall pages d e, none.2))
    | inr some ↦ inr (some.0, λ x. omega (arith, some.1 x))
  ])
]

-- alloc_frame_allocator_memory, for a memory map whose descriptors end below 2^64: either no
-- descriptor of a usable type from 1 MiB on has enough pages, the address is 0 and the map stays,
-- or the address is not below 1 MiB and the pages from it on are taken out of the usable memory of
-- the map: each address of them was in one descriptor more than afterwards, and every other
-- address is in as many as before.
pub alloc_frame_allocator_memory-IsTaken :
    (memory_size : ℕ) (memory_map : List MemoryDescriptor)
    → All Fits memory_map
    → IsTaken
        (alloc_frame_allocator_memory memory_size memory_map).pages
        memory_map
        (alloc_frame_allocator_memory memory_size memory_map).phys_addr
        (alloc_frame_allocator_memory memory_size memory_map).memory_map
unfolding alloc_frame_allocator_memory
alloc_frame_allocator_memory-IsTaken memory_size memory_map fits =
    take_pages_lem (total_pages memory_size) memory_map fits

-- ===== src/Memory/Slab/Objects.antt =====
-- The free array of a slab is a list of the objects that are free.
use plusplus_os.Base.{
  Distinct, ℕ, zero, suc, ◌+◌, ◌^◌, ◌<◌, ◌≡◌, ◌≢◌, refl, arith, ◌∙◌, List, [], ◌∷◌, All, length,
  leb, ltb, ◌&&◌, if◌then◌else◌, update, update_same, update_other, u32,
}
use plusplus_os.Memory.Slab.{Cache, Slab, fill_free, new_slab, take_object, put_object}

-- From `start` on, the free array leads through the objects of the list and then to `count`.
abbrev pub FreeChain : ℕ → (ℕ → ℕ) → List ℕ → ℕ → Type 0
FreeChain count free [] start = start ≡ count
FreeChain count free (i ∷ l) start = (start ≡ i) × (i < count) × FreeChain count free l (free i)

-- The objects of the list are free, each once, and the others are allocated.
pub record Holds (count : ℕ) (slab : Slab) (l : List ℕ) : Type 0 where
  pub chain : FreeChain count slab.free l slab.next_free
  pub distinct : Distinct l
  pub counted : slab.allocated + length l ≡ count

-- A write to an object that is not in the chain keeps the chain.
FreeChain-update :
    (count : ℕ) (free : ℕ → ℕ) (i v : ℕ) (l : List ℕ) (start : ℕ)
    → All (λ j. j ≢ i) l
    → FreeChain count free l start
    → FreeChain count (update free i v) l start
FreeChain-update count free i v [] start apart chain = chain
FreeChain-update count free i v (j ∷ l) start apart chain = (
  chain.0,
  chain.1,
  rw (update_other free i j v apart.0) (FreeChain-update count free i v l (free j) apart.1 chain.2),
)

-- kalloc takes the first free object of a slab: it was free, and is not any more.
pub take_object-Holds :
    (count : ℕ) (slab : Slab) (i : ℕ) (l : List ℕ)
    → count < 2 ^ 32
    → Holds count slab (i ∷ l)
    → ((take_object slab).0 ≡ i) × (i < count) × Holds count (take_object slab).1 l
unfolding take_object
take_object-Holds count slab i l small h = (
  h.chain.0,
  h.chain.1,
  record {
    chain = rw h.chain.0 h.chain.2;
    distinct = h.distinct.1;
    counted = omega (arith, h.counted);
  },
)

-- kfree of an object of a slab that is not free makes it the first of the free ones.
pub put_object-Holds :
    (count : ℕ) (slab : Slab) (i : ℕ) (l : List ℕ)
    → count < 2 ^ 32
    → i < count
    → 0 < slab.allocated
    → All (λ j. j ≢ i) l
    → Holds count slab l
    → Holds count (put_object i slab) (i ∷ l)
unfolding put_object
put_object-Holds count slab i l small low some apart h = record {
  chain = (
    refl,
    low,
    rw (update_same slab.free i slab.next_free)
        (FreeChain-update count slab.free i slab.next_free l slab.next_free apart h.chain),
  );
  distinct = (apart, h.distinct);
  counted = omega (arith, h.counted);
}

-- The numbers from `i` on, `n` of them.
abbrev pub numbers : ℕ → ℕ → List ℕ
numbers i zero = []
numbers i (suc n) = i ∷ numbers (i + 1) n

fill_free-cell :
    (left i j : ℕ) (free : ℕ → ℕ)
    → i + left < 2 ^ 32
    → fill_free left i free j ≡ (if leb i j && ltb j (i + left) then j + 1 else free j)
unfolding fill_free update
fill_free-cell zero i j free small = ground arith
fill_free-cell (suc left) i j free small =
    fill_free-cell left (i + 1) j (update free i (u32 (i + 1))) (omega arith) ∙ ground arith

filled-FreeChain :
    (count n i : ℕ) (free : ℕ → ℕ)
    → count < 2 ^ 32
    → i + n ≡ count
    → FreeChain count (fill_free count 0 free) (numbers i n) i
filled-FreeChain count zero i free small e = omega arith
filled-FreeChain count (suc n) i free small e =
    let next : fill_free count 0 free i ≡ i + 1 =
      fill_free-cell count 0 i free (omega arith) ∙ ground arith in
    (refl, omega arith, rw next (filled-FreeChain count n (i + 1) free small (omega arith)))

numbers-above : (n i k : ℕ) → k < i → All (λ j. j ≢ k) (numbers i n)
numbers-above zero i k lt = tt
numbers-above (suc n) i k lt = (omega arith, numbers-above n (i + 1) k (omega arith))

numbers-Distinct : (n i : ℕ) → Distinct (numbers i n)
numbers-Distinct zero i = tt
numbers-Distinct (suc n) i = (numbers-above n (i + 1) i (omega arith), numbers-Distinct n (i + 1))

length-numbers : (n i : ℕ) → length (numbers i n) ≡ n
length-numbers zero i = refl
length-numbers (suc n) i = omega (arith, length-numbers n (i + 1))

-- In a new slab all objects are free, whatever its memory held.
pub new_slab-Holds :
    (cache : Cache) (junk : ℕ → ℕ)
    → cache.count < 2 ^ 32
    → Holds cache.count (new_slab cache junk) (numbers 0 cache.count)
unfolding new_slab
new_slab-Holds cache junk small = record {
  chain = filled-FreeChain cache.count cache.count 0 junk small (omega arith);
  distinct = numbers-Distinct cache.count 0;
  counted = omega (arith, length-numbers cache.count 0);
}

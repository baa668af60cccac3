-- ===== src/Memory/Slab/Layout.antt =====
-- How a cache divides the memory of its slabs, and which cache serves a size.
use plusplus_os.Base.{
  ℕ, zero, suc, ◌+◌, ◌-◌, ◌*◌, ◌/◌, ◌^◌, ◌⊎◌, false, ◌∙◌, if◌then◌else◌, update, update_same,
  update_other, ◌≤◌, ◌<◌, ◌≡◌, ◌≢◌, refl, arith, ◌&&◌, ◌==◌, Bool, true, leb, ltb, Bool-cases, inl,
  inr,
}
use plusplus_os.Machine.{Run, ok, stop, out_of_bounds}
use plusplus_os.Memory.Orders.{round_up_to_multiple}
use plusplus_os.Memory.Slab.{
  Cache, climb_order, get_min_cache_order, add_pages, free_array, fit_objects, cache_room,
  new_cache, get_cache, initialize_from,
}

-- The 32 bytes of a Slab, which lie in its pages for objects of less than 512 bytes.
abbrev pub header : ℕ → ℕ
header order = if ltb order 9 then 32 else 0

-- 4 bytes for each of `n` objects, up to a multiple of 16.
abbrev pub array_for : ℕ → ℕ
array_for n = (4 * n + 15) / 16 * 16

-- A cache of an order has objects, a free array with a place for each, and both fit into what is
-- left of its pages, but would not with one object more.
pub record IsLaidOut (order : ℕ) (c : Cache) : Type 0 where
  pub size : c.size ≡ 2 ^ order
  pub some_objects : 3 ≤ c.count
  pub indexed : 4 * c.count ≤ c.free_arr_size
  pub objects : c.mem_size ≡ c.count * c.size
  pub fits : c.free_arr_size + c.mem_size + header order ≤ c.pages * 4096
  pub full : c.pages * 4096 < array_for (c.count + 1) + (c.count + 1) * c.size + header order

-- The test of a layout.
abbrev laid_out : ℕ → Cache → Bool
laid_out order c =
    c.size == 2 ^ order
    && leb 3 c.count
    && leb (4 * c.count) c.free_arr_size
    && c.mem_size == c.count * c.size
    && leb (c.free_arr_size + c.mem_size + header order) (c.pages * 4096)
    && ltb (c.pages * 4096) (array_for (c.count + 1) + (c.count + 1) * c.size + header order)

laid_out-IsLaidOut : (order : ℕ) (c : Cache) → laid_out order c ≡ true → IsLaidOut order c
laid_out-IsLaidOut order c h = record {
  size = ground arith;
  some_objects = ground arith;
  indexed = ground arith;
  objects = ground arith;
  fits = ground arith;
  full = ground arith;
}

-- Each of the caches is laid out well.
pub new_cache-IsLaidOut : (order : ℕ) → 4 ≤ order → order ≤ 11 → IsLaidOut order (new_cache order)
unfolding new_cache add_pages cache_room fit_objects free_array round_up_to_multiple
new_cache-IsLaidOut zero lo hi = absurd (omega arith)
new_cache-IsLaidOut (suc zero) lo hi = absurd (omega arith)
new_cache-IsLaidOut (suc (suc zero)) lo hi = absurd (omega arith)
new_cache-IsLaidOut (suc (suc (suc zero))) lo hi = absurd (omega arith)
new_cache-IsLaidOut (suc (suc (suc (suc zero)))) lo hi = laid_out-IsLaidOut 4 (new_cache 4) refl
new_cache-IsLaidOut (suc (suc (suc (suc (suc zero))))) lo hi =
    laid_out-IsLaidOut 5 (new_cache 5) refl
new_cache-IsLaidOut (suc (suc (suc (suc (suc (suc zero)))))) lo hi =
    laid_out-IsLaidOut 6 (new_cache 6) refl
new_cache-IsLaidOut (suc (suc (suc (suc (suc (suc (suc zero))))))) lo hi =
    laid_out-IsLaidOut 7 (new_cache 7) refl
new_cache-IsLaidOut (suc (suc (suc (suc (suc (suc (suc (suc zero)))))))) lo hi =
    laid_out-IsLaidOut 8 (new_cache 8) refl
new_cache-IsLaidOut (suc (suc (suc (suc (suc (suc (suc (suc (suc zero))))))))) lo hi =
    laid_out-IsLaidOut 9 (new_cache 9) refl
new_cache-IsLaidOut (suc (suc (suc (suc (suc (suc (suc (suc (suc (suc zero)))))))))) lo hi =
    laid_out-IsLaidOut 10 (new_cache 10) refl
new_cache-IsLaidOut (suc (suc (suc (suc (suc (suc (suc (suc (suc (suc (suc zero))))))))))) lo hi =
    laid_out-IsLaidOut 11 (new_cache 11) refl
new_cache-IsLaidOut (suc (suc (suc (suc (suc (suc (suc (suc (suc (suc (suc (suc k)))))))))))) lo
      hi =
    absurd (omega arith)

-- The order is the smallest one, from 4 on, whose objects are big enough, or 12 if there is none.
pub record IsMinOrder (size k : ℕ) : Type 0 where
  pub lower : 4 ≤ k
  pub upper : k ≤ 12
  pub holds : k ≢ 12 → size ≤ 2 ^ k
  pub smallest : k ≢ 4 → 2 ^ (k - 1) < size

climb_order-IsMinOrder :
    (left order size : ℕ)
    → order + left ≡ 12
    → 4 ≤ order
    → (order ≢ 4 → 2 ^ (order - 1) < size)
    → IsMinOrder size (climb_order left order size)
unfolding climb_order
climb_order-IsMinOrder zero order size e lo h = record {
  lower = lo;
  upper = omega arith;
  holds = λ ne. absurd (ne (omega arith));
  smallest = h;
}
climb_order-IsMinOrder (suc left) order size e lo h = elim (Bool-cases (ltb (2 ^ order) size)) [
  | inl small ↦
      let in_range : leb order 11 ≡ true = ground arith in
      rw (small, in_range)
        (climb_order-IsMinOrder left (order + 1) size (omega arith) (omega arith)
          λ ne. let same : order + 1 - 1 ≡ order = omega arith in rw same (ground arith))
  | inr big ↦
      rw big (record { lower = lo; upper = omega arith; holds = λ ne. ground arith; smallest = h })
]

-- get_min_cache_order finds the smallest order from 4 on whose objects hold the size, or the one
-- after the last if there is none.
pub get_min_cache_order-IsMinOrder : (size : ℕ) → IsMinOrder size (get_min_cache_order size)
unfolding get_min_cache_order
get_min_cache_order-IsMinOrder size =
    climb_order-IsMinOrder 8 4 size refl (omega arith) λ ne. absurd (ne refl)

-- What the set-up of the caches of `left` orders from `order` on does.
abbrev pub IsSetUp : (ℕ → Cache) → ℕ → ℕ → Run (ℕ → Cache) (Unit {0}) → Type 0
IsSetUp before order left run =
    ((after : ℕ → Cache) × (order + left ≤ 11)
      × (run ≡ ok tt after)
      × ((k : ℕ) → order ≤ k → k < order + left → IsLaidOut k (after (k - 4)))
      × ((i : ℕ) → i + 4 < order ⊎ order + left ≤ i + 4 → after i ≡ before i))
    ⊎ (11 < order + left) × (run ≡ stop out_of_bounds)

one_cache :
    (order left : ℕ) (caches : ℕ → Cache)
    → 4 ≤ order
    → order ≤ 10
    → initialize_from (suc left) order caches
      ≡ initialize_from left (order + 1) (update caches (order - 4) (new_cache order))
unfolding initialize_from get_cache
one_cache order left caches lo hi =
    let inside : ltb (order - 4) 7 ≡ true = ground arith in
    let some : ((new_cache order).count == 0) ≡ false =
      ground (arith, (new_cache-IsLaidOut order lo (omega arith)).some_objects) in
    rw inside (rw some refl)

with_cache :
    (left order : ℕ) (caches : ℕ → Cache)
    → 4 ≤ order
    → order ≤ 10
    → IsSetUp
        (update caches (order - 4) (new_cache order))
        (order + 1)
        left
        (initialize_from left (order + 1) (update caches (order - 4) (new_cache order)))
    → IsSetUp caches order (suc left) (initialize_from (suc left) order caches)
with_cache left order caches lo hi (inr (over, run)) =
    inr (omega arith, one_cache order left caches lo hi ∙ run)
with_cache left order caches lo hi (inl (after, le, run, laid, same)) = inl (
  after,
  omega arith,
  one_cache order left caches lo hi ∙ run,
  λ k above below. elim (Bool-cases (k == order)) [
    | inl e ↦
        let here : k ≡ order = ground arith in
        let cell : after (order - 4) ≡ new_cache order =
          same (order - 4) (inl (omega arith)) ∙ update_same caches (order - 4) (new_cache order) in
        rw (here, cell) (new_cache-IsLaidOut order lo (omega arith))
    | inr ne ↦ laid k (ground arith) (omega arith)
  ],
  λ i out.
      same i (elim out [ inl lt ↦ inl (omega arith) | inr ge ↦ inr (omega arith) ])
      ∙ update_other caches (order - 4) i (new_cache order) (λ e. ground (arith, out)),
)

-- The loop of initialize_slab_allocator, from the cache of an order from 4 to 11 on and for any number
-- of caches: if the last of their orders is at most 10 it returns, each of them is laid out well and
-- all others are as before; if it is 11 or more, as it is for the 8 caches that the kernel sets up,
-- a cache past the end of size_caches is accessed.
pub initialize_from_lem :
    (left order : ℕ) (caches : ℕ → Cache)
    → 4 ≤ order
    → order ≤ 11
    → IsSetUp caches order left (initialize_from left order caches)
unfolding initialize_from get_cache
initialize_from_lem zero order caches lo hi =
    inl (caches, omega arith, refl, λ k above below. absurd (omega arith), λ i out. refl)
initialize_from_lem (suc left) order caches lo hi = elim (Bool-cases (ltb order 11)) [
  | inl inside ↦ with_cache left order caches lo (ground arith) (
      initialize_from_lem left (order + 1) (update caches (order - 4) (new_cache order))
        (omega arith) (ground arith))
  | inr last ↦
      let outside : ltb (order - 4) 7 ≡ false = ground arith in inr (ground arith, rw outside refl)
]

-- ===== src/Memory/Slab.antt =====
-- kernel/src/memory/slab_allocator.c: the caches, and the objects of a slab.
pub mod Layout
pub mod Addresses
pub mod Objects
pub mod Heap
mod Tests
use Prim.Native.Nat.{min}
use plusplus_os.Base.{
  ℕ, zero, suc, ◌+◌, ◌-◌, ◌*◌, ◌/◌, ◌%◌, ◌^◌, Bool, not, ◌&&◌, ◌||◌, ltb, leb, ◌==◌, if◌then◌else◌,
  update, sub64, mul64, u32,
}
use plusplus_os.Machine.{Cmd, ok, zero_sized, out_of_bounds, pure, halt, kernel_assert, ◌>>=◌, ◌>>◌}
use plusplus_os.Memory.EntryPool.{page_size}
use plusplus_os.Memory.Orders.{round_up_to_multiple}

-- CACHE_START_ORDER, CACHE_END_ORDER, NUM_CACHES, OFF_SLAB_THRESHOLD, MIN_OBJ_THRESHOLD
abbrev pub cache_start_order : ℕ
cache_start_order = 4

abbrev pub cache_end_order : ℕ
cache_end_order = 11

abbrev pub num_caches : ℕ
num_caches = cache_end_order - cache_start_order

abbrev pub off_slab_threshold : ℕ
off_slab_threshold = page_size / 8

abbrev pub min_obj_threshold : ℕ
min_obj_threshold = 4

-- sizeof(Slab), alignof(max_align_t)
abbrev pub slab_size : ℕ
slab_size = 32

abbrev pub max_align : ℕ
max_align = 16

-- Cache, but for its lists of slabs.
pub record Cache : Type 0 where
  pub pages : ℕ
  pub size : ℕ
  pub count : ℕ
  pub free_arr_size : ℕ
  pub mem_size : ℕ

-- The loop of get_min_cache_order.
unfoldable pub climb_order : ℕ → ℕ → ℕ → ℕ
climb_order zero order size = order
climb_order (suc left) order size =
    let rest = climb_order left (order + 1) size in
    if ltb (2 ^ order) size && leb order cache_end_order then rest else order

unfoldable pub get_min_cache_order : ℕ → ℕ
get_min_cache_order size = climb_order 8 cache_start_order size

-- The loop over the pages of a slab: at most `left` more.
unfoldable pub add_pages : ℕ → ℕ → ℕ → ℕ
add_pages zero pages size = pages
add_pages (suc left) pages size =
    let rest = add_pages left (pages + 1) size in
    if ltb (mul64 pages page_size / size) min_obj_threshold then rest else pages

-- The size of the free array of `count` objects.
unfoldable pub free_array : ℕ → ℕ → ℕ
free_array count size = u32 (round_up_to_multiple (mul64 count 4) (min max_align size))

-- The loop over the number of objects in `room` bytes.
unfoldable pub fit_objects : ℕ → ℕ → ℕ → ℕ → Cache
fit_objects pages size room zero = record {
  pages = pages;
  size = size;
  count = 0;
  free_arr_size = 0;
  mem_size = 0;
}
fit_objects pages size room (suc n) =
    let rest = fit_objects pages size room n in
    let count = suc n in
    if leb (free_array count size) (sub64 room (u32 (count * size)))
    then record {
      pages = pages;
      size = size;
      count = count;
      free_arr_size = free_array count size;
      mem_size = u32 (count * size);
    }
    else rest

unfoldable pub cache_room : ℕ → ℕ → ℕ
cache_room pages size =
    if ltb size off_slab_threshold
    then sub64 (mul64 pages page_size) slab_size
    else mul64 pages page_size

-- The body of the loop of initialize_slab_allocator for one cache.
unfoldable pub new_cache : ℕ → Cache
new_cache order =
    let size = 2 ^ order in
    let pages = add_pages 8 1 size in
    let room = cache_room pages size in fit_objects pages size room (room / size)

-- &g_slab_allocator.size_caches[order - CACHE_START_ORDER], as its index
unfoldable pub get_cache : {S : Type 0} → ℕ → Cmd S ℕ
get_cache order =
    if ltb (order - cache_start_order) num_caches
    then pure (order - cache_start_order)
    else halt out_of_bounds

-- The state is size_caches.
unfoldable pub initialize_from : ℕ → ℕ → Cmd (ℕ → Cache) (Unit {0})
initialize_from zero order = pure tt
initialize_from (suc left) order = do
  index ← get_cache order
  let cache = new_cache order
  kernel_assert (not (cache.count == 0)) zero_sized
  (λ caches. ok tt (update caches index cache))
  initialize_from left (order + 1)

unfoldable pub initialize_slab_allocator : Cmd (ℕ → Cache) (Unit {0})
initialize_slab_allocator = initialize_from 8 cache_start_order

-- The part of a Slab that tells which of its objects are free, and its free array.
pub record Slab : Type 0 where
  pub allocated : ℕ
  pub next_free : ℕ
  pub free : ℕ → ℕ

-- for (i; left more rounds) free[i] = i + 1
unfoldable pub fill_free : ℕ → ℕ → (ℕ → ℕ) → ℕ → ℕ
fill_free zero i free = free
fill_free (suc left) i free = fill_free left (i + 1) (update free i (u32 (i + 1)))

-- A new slab, in memory that held `junk`.
unfoldable pub new_slab : Cache → (ℕ → ℕ) → Slab
new_slab cache junk = record { allocated = 0; next_free = 0; free = fill_free cache.count 0 junk }

-- The object that kalloc takes from a slab, as its index, and the slab after that.
unfoldable pub take_object : Slab → ℕ × Slab
take_object slab = (
  slab.next_free,
  record slab { next_free = slab.free slab.next_free; allocated = u32 (slab.allocated + 1) },
)

-- The slab after kfree of an object of it.
unfoldable pub put_object : ℕ → Slab → Slab
put_object obj_index slab = record {
  free = update slab.free obj_index slab.next_free;
  next_free = obj_index;
  allocated = u32 (slab.allocated + 2 ^ 32 - 1);
}

-- ===== src/Memory/Slab/Tests.antt =====
-- The theorems of the slab allocator at concrete values.
use plusplus_os.Base.{◌≡◌, refl, arith}
use plusplus_os.Machine.{stop, out_of_bounds}
use plusplus_os.Memory.Slab.{
  Cache, new_cache, get_min_cache_order, initialize_slab_allocator, initialize_from, get_cache,
  add_pages, cache_room, fit_objects, free_array, new_slab,
}
use plusplus_os.Memory.Orders.{round_up_to_multiple}
use plusplus_os.Memory.Slab.Layout.{
  IsLaidOut, IsMinOrder, new_cache-IsLaidOut, get_min_cache_order-IsMinOrder, IsSetUp,
  initialize_from_lem,
}
use plusplus_os.Memory.Slab.Objects.{Holds, numbers, new_slab-Holds}

new_cache-IsLaidOut_example : IsLaidOut 7 (new_cache 7)
new_cache-IsLaidOut_example = new_cache-IsLaidOut 7 (omega arith) (omega arith)

get_min_cache_order-IsMinOrder_example : IsMinOrder 100 (get_min_cache_order 100)
get_min_cache_order-IsMinOrder_example = get_min_cache_order-IsMinOrder 100

abbrev three_objects : Cache
three_objects = record { pages = 1; size = 1024; count = 3; free_arr_size = 16; mem_size = 3072 }

initialize_from_lem_example :
    IsSetUp (λ i. three_objects) 4 8 (initialize_from 8 4 (λ i. three_objects))
initialize_from_lem_example =
    initialize_from_lem 8 4 (λ i. three_objects) (omega arith) (omega arith)

-- The whole set-up.
initialize_slab_allocator_test : initialize_slab_allocator (λ i. three_objects) ≡ stop out_of_bounds
unfolding initialize_slab_allocator initialize_from get_cache new_cache add_pages cache_room
    fit_objects free_array round_up_to_multiple
initialize_slab_allocator_test = refl

new_slab-Holds_example : Holds 3 (new_slab three_objects (λ i. 77)) (numbers 0 3)
new_slab-Holds_example = new_slab-Holds three_objects (λ i. 77) (omega arith)

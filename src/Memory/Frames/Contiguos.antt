-- ===== src/Memory/Frames/Contiguos.antt =====
-- alloc_frames_contiguos: it looks at three orders only, and takes the first block it comes by.
pub mod Contract
use plusplus_os.Base.{
  ℕ, zero, suc, ◌+◌, ◌-◌, ◌≤◌, ◌<◌, ◌≡◌, refl, arith, ◌==◌, Bool, true, false, List, [], ◌∷◌, ◌⊎◌,
  inl, inr, one_if, Option, none, some, Bool-cases, ltb, leb,
}
use plusplus_os.Machine
use plusplus_os.Machine.{
  Run, Cmd, Stop, ok, stop, null_pointer, out_of_bounds, Ends, returns, stops,
}
use plusplus_os.Memory.{Mem, FreeLists, set_pool}
use plusplus_os.Memory.EntryPool.{free_memory_entry, freed_entry}
use plusplus_os.Memory.Orders.{order_size, range_contains}
use plusplus_os.Memory.Frames.{
  find_contiguos, contiguos_round, split_block, split_first, give_address,
}
use plusplus_os.Memory.Frames.View.{covers, free_at, IsBlock, IsValid}
use plusplus_os.Memory.Frames.Effects.{taken-IsValid, first-IsBlock}
use plusplus_os.Memory.Frames.Supply.{Keeps, Supply, weaken_by}
use plusplus_os.Memory.Frames.Chains.{Starts, chain-cases, Keeps-refl, Keeps-trans}
use plusplus_os.Memory.Frames.Take.{IsSplit, split_block-IsSplit, take_block_lem, without}

-- Where alloc_frames_contiguos stops: it reads the first block of a free list that is empty, or
-- past the last free list.
abbrev pub Crash : FreeLists → ℕ → Stop → Type 0
Crash f k null_pointer = (f.head k ≡ []) × (f.head (k + 1) ≡ []) × (f.head (k + 2) ≡ [])
Crash f k out_of_bounds = (k ≡ 7) × (f.head k ≡ [])
Crash f k _ = ⊥

module _ {X : Type 0} (u : Supply X) (target : ℕ) where
  open u use {alloc_page, held, Admits, Stock}

  -- `false`: the two orders that are looked at are empty, and are the last ones.
  abbrev pub Search : Mem X → Bool → Mem X → Type 0
  Search s true t = Keeps held s t × Starts (t.lists.head target) × Stock 1 t.pool
  Search s false t = (t ≡ s) × (target ≡ 6) × (s.lists.head 6 ≡ []) × (s.lists.head 7 ≡ [])

  found_here :
      (fuel order : ℕ) (s t : Mem X)
      → Keeps held s t
      → Stock 1 t.pool
      → Starts (t.lists.head target)
      → Ends Admits (Search s) (find_contiguos alloc_page (suc fuel) target order t)
  unfolding find_contiguos
  found_here fuel order s t keeps stock here =
      rw (here.eq, find_contiguos) (returns (keeps, here, stock))

  -- A block of order `j + 1` is split, and the search goes on at order `j`.
  split_here :
      (m fuel j : ℕ) (s : Mem X) {Q : Bool → Mem X → Type 0}
      → j < 7
      → IsValid s.lists
      → Stock (suc m) s.pool
      → s.lists.head target ≡ []
      → Starts (s.lists.head (suc j))
      → ((t : Mem X)
          → IsSplit u m j s t
          → Ends Admits Q (find_contiguos alloc_page fuel target j t))
      → Ends Admits Q (find_contiguos alloc_page (suc fuel) target (suc j) s)
  unfolding find_contiguos contiguos_round
  split_here m fuel j s low v stock gone there next =
      let in_range : ltb (suc j) 8 ≡ true = ground arith in
      let below : suc j - 1 ≡ j = omega arith in
      rw (gone, find_contiguos)
        (rw in_range (
          rw (there.eq, contiguos_round)
            (Machine.bind (split_block-IsSplit u s v j low there.first there.next there.eq m stock)
              λ _ t split. rw below (next t split))))

  -- The order `j` is empty: the one above it is split in the same round.
  split_above :
      (m fuel j : ℕ) (s : Mem X) {Q : Bool → Mem X → Type 0}
      → j < 7
      → IsValid s.lists
      → Stock (suc m) s.pool
      → s.lists.head target ≡ []
      → s.lists.head j ≡ []
      → (s.lists.head (suc j) ≡ [] → Admits null_pointer)
      → ((t : Mem X)
          → IsSplit u m j s t
          → Ends Admits Q (find_contiguos alloc_page fuel target j t))
      → Ends Admits Q (find_contiguos alloc_page (suc fuel) target j s)
  unfolding find_contiguos contiguos_round split_block split_first
  split_above m fuel j s low v stock gone none_here crash next =
      let in_range : ltb j 8 ≡ true = ground arith in
      let more : leb 8 (j + 1) ≡ false = ground arith in
      let up : j + 1 ≡ suc j = omega arith in
      rw (gone, find_contiguos)
        (rw in_range (
          rw (none_here, contiguos_round)
            (rw (more, up)
              (elim (chain-cases (s.lists.head (suc j))) [
                | inl empty ↦ rw (empty, split_first) (stops (crash empty))
                | inr there ↦
                    Machine.bind
                      (split_block-IsSplit u s v j low there.first there.next there.eq m stock)
                      λ _ t split. next t split
              ]))))

  -- The last order but one is wanted, and there is nothing above it.
  none_above :
      (fuel : ℕ) (s : Mem X)
      → target ≡ 6
      → s.lists.head target ≡ []
      → s.lists.head 7 ≡ []
      → Ends Admits (Search s) (find_contiguos alloc_page (suc fuel) target 7 s)
  unfolding find_contiguos contiguos_round
  none_above fuel s last gone none_here =
      rw (gone, find_contiguos)
        (rw (none_here, contiguos_round) (returns (refl, last, rw last at gone, none_here)))

  past_end :
      (fuel order : ℕ) (s : Mem X)
      → order ≡ 8
      → s.lists.head target ≡ []
      → Admits out_of_bounds
      → Ends Admits (Search s) (find_contiguos alloc_page (suc fuel) target order s)
  unfolding find_contiguos
  past_end fuel order s e gone past =
      let out_of_range : ltb order 8 ≡ false = ground arith in
      rw (gone, find_contiguos) (rw out_of_range (stops past))

  -- The order above has a block.
  found_above :
      (fuel : ℕ) (s t : Mem X)
      → target < 7
      → Keeps held s t
      → Stock 2 t.pool
      → Starts (t.lists.head (suc target))
      → Ends Admits (Search s) (find_contiguos alloc_page (suc (suc fuel)) target (suc target) t)
  found_above fuel s t low keeps stock there = elim (chain-cases (t.lists.head target)) [
    | inr here ↦ found_here (suc fuel) (suc target) s t keeps (weaken_by u 1 1 t.pool stock) here
    | inl gone ↦ split_here 1 (suc fuel) target t low keeps.valid stock gone there λ r split.
        found_here fuel target s r (Keeps-trans keeps split.keeps) split.stock
          (record { first = split.left; next = split.others; eq = split.present })
  ]

  -- The order that is wanted is empty.
  look_above :
      (fuel : ℕ) (s : Mem X)
      → target < 7
      → IsValid s.lists
      → Stock 3 s.pool
      → s.lists.head target ≡ []
      → (Crash s.lists target null_pointer → Admits null_pointer)
      → Ends Admits
          (Search s)
          (find_contiguos alloc_page (suc (suc (suc fuel))) target (suc target) s)
  look_above fuel s low v stock gone crash = elim (chain-cases (s.lists.head (suc target))) [
    | inr there ↦
        found_above (suc fuel) s s low (Keeps-refl s v) (weaken_by u 1 2 s.pool stock) there
    | inl none_here ↦ elim (Bool-cases (target == 6)) [
      | inl last ↦
          let six : target ≡ 6 = ground arith in
          let seven : suc target ≡ 7 = omega arith in
          rw seven (none_above (suc (suc fuel)) s six gone (rw seven at none_here))
      | inr inside ↦
          split_above 2 (suc (suc fuel)) (suc target) s (ground arith) v stock gone none_here
            (λ second.
              let one : target + 1 ≡ suc target = omega arith in
              let two : target + 2 ≡ suc (suc target) = omega arith in
              crash (gone, rw one none_here, rw two second))
            λ t split.
              found_above fuel s t low split.keeps split.stock
                (record { first = split.left; next = split.others; eq = split.present })
    ]
  ]

  pub find_contiguos-Search :
      (s : Mem X)
      → target < 8
      → IsValid s.lists
      → Stock 3 s.pool
      → ((e : Stop) → Crash s.lists target e → Admits e)
      → Ends Admits (Search s) (find_contiguos alloc_page 16 target (target + 1) s)
  find_contiguos-Search s low v stock crash =
      let one : target + 1 ≡ suc target = omega arith in
      rw one (elim (chain-cases (s.lists.head target)) [
        | inr here ↦
            found_here 15 (suc target) s s (Keeps-refl s v) (weaken_by u 2 1 s.pool stock) here
        | inl gone ↦ elim (Bool-cases (target == 7)) [
          | inl last ↦
              past_end 15 (suc target) s (ground arith) gone
                (crash out_of_bounds (ground arith, gone))
          | inr inside ↦ look_above 13 s (ground arith) v stock gone (crash null_pointer)
        ]
      ])

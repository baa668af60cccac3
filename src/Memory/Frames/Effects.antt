-- ===== src/Memory/Frames/Effects.antt =====
-- The four changes of the free lists: a block is put in or taken out and its bit toggled, a block
-- that was taken is replaced by its halves, and two buddies are taken out together.
use plusplus_os.Base.{
  ℕ, suc, ◌+◌, ◌-◌, ◌≤◌, ◌<◌, ◌≡◌, refl, arith, ◌==◌, Bool, true, List, ◌∷◌, [], one_if, tally, All,
  Bool-cases, inl, inr, ◌⊎◌, ◌∙◌, none, some,
}
use plusplus_os.Memory.{ListEntry, list_entry, FreeLists, set_head}
use plusplus_os.Memory.Orders.{order_size, range_contains}
use plusplus_os.Memory.Buddy.Bit.{pair_of, toggled}
use plusplus_os.Memory.Frames.{Unlinked, unlink}
use plusplus_os.Memory.Frames.Blocks.{IsBlock-Halves, halves_cover}
use plusplus_os.Memory.Frames.View.{
  covers, in_pair, free_at, IsBlock, IsEntry, IsValid, free_at-set_head,
}
use plusplus_os.Memory.Frames.Valid.{free_at-toggled, set_head-IsValid, toggled-IsValid}

-- The free lists `g` are well formed, and have the free addresses `P`.
pub record Lists (P : ℕ → ℕ) (g : FreeLists) : Type 0 where
  pub valid : IsValid g
  pub free : (x : ℕ) → free_at g x ≡ P x

module _ (f : FreeLists) (v : IsValid f) (k : ℕ) (low : k < 8) where
  abbrev given : ListEntry → FreeLists
  given e = toggled k e.addr (set_head k (e ∷ f.head k) f)

  -- A block that is nowhere free is put in front.
  pub given-IsValid :
      (e : ListEntry)
      → IsBlock k e.addr
      → ((x : ℕ) → free_at f x + one_if (covers x k e) ≤ 1)
      → Lists (λ x. free_at f x + one_if (covers x k e)) (given e)
  unfolding in_pair tally
  given-IsValid e b fresh =
      let count : (x : ℕ)
          → free_at (set_head k (e ∷ f.head k) f) x ≡ free_at f x + one_if (covers x k e) =
        λ x. omega (arith, free_at-set_head f k (e ∷ f.head k) x low) in
      record {
        valid =
            toggled-IsValid f v k low (e ∷ f.head k) (record { block = b }, v.blocks k low) e.addr
              (λ i h. omega arith) (λ x. omega (arith, count x, fresh x));
        free = λ x. free_at-toggled k e.addr (set_head k (e ∷ f.head k) f) x ∙ count x;
      }

  module _ (e : ListEntry) (next : List ListEntry) (first : f.head k ≡ e ∷ next) where
    -- The first block is taken out.
    pub taken-IsValid :
        Lists (λ x. free_at f x - one_if (covers x k e)) (toggled k e.addr (set_head k next f))
        × ((x : ℕ) → one_if (covers x k e) ≤ free_at f x)
    unfolding in_pair tally
    taken-IsValid =
        let count : (x : ℕ) → free_at (set_head k next f) x + one_if (covers x k e) ≡ free_at f x =
          λ x. omega (arith, rw first at (free_at-set_head f k next x low)) in
        (
          record {
            valid =
                toggled-IsValid f v k low next (rw first at (v.blocks k low)).1 e.addr
                  (λ i h. rw first (omega arith)) (λ x. omega (arith, count x, v.once x));
            free = λ x. free_at-toggled k e.addr (set_head k next f) x ∙ omega (arith, count x);
          },
          λ x. omega (arith, count x),
        )

    pub first-IsBlock : IsBlock k e.addr
    first-IsBlock = (rw first at (v.blocks k low)).0.block

module _ (f : FreeLists) (v : IsValid f) (k : ℕ) (low : k < 7) where
  abbrev halved : (n m addr : ℕ) → FreeLists
  halved n m addr = set_head k (list_entry n addr ∷ list_entry m (addr + order_size k) ∷ f.head k) f

  -- Both halves of a block that is nowhere free are put in front. Their bit stays as it is.
  pub halved-IsValid :
      (n m addr : ℕ)
      → IsBlock (suc k) addr
      → ((x : ℕ) → free_at f x + one_if (range_contains x addr (order_size (suc k))) ≤ 1)
      → Lists
          (λ x. free_at f x + one_if (range_contains x addr (order_size (suc k))))
          (halved n m addr)
  unfolding in_pair tally covers
  halved-IsValid n m addr b fresh =
      let h = IsBlock-Halves k (omega arith) addr b in
      let right = addr + order_size k in
      let count : (x : ℕ)
          → free_at (halved n m addr) x
            ≡ free_at f x + one_if (range_contains x addr (order_size (suc k))) =
        λ x. omega (
          arith,
          free_at-set_head f k (list_entry n addr ∷ list_entry m right ∷ f.head k) x (omega arith),
          halves_cover k (omega arith) x addr h.right.fits,
        ) in
      record {
        valid =
            set_head-IsValid f v k (omega arith) (list_entry n addr ∷ list_entry m right ∷ f.head k)
              (record { block = h.left }, (record { block = h.right }, v.blocks k (omega arith)))
              (λ i _. rw h.same (omega arith)) (λ x. omega (arith, count x, fresh x));
        free = count;
      }

-- An entry that a chain gives up is one that passes the test, and the others stay.
pub record Unlinks (found : ListEntry → Bool) (P : ListEntry → Type 0) (l : List ListEntry)
    (u : Unlinked) : Type 0 where
  pub passes : found u.entry ≡ true
  pub entry : P u.entry
  pub others : All P u.chain
  pub count : (t : ListEntry → Bool) → tally t l ≡ one_if (t u.entry) + tally t u.chain

module _ (found : ListEntry → Bool) {P : ListEntry → Type 0} where
  -- The walk finds an entry if there is one.
  pub unlink-cases :
      (l : List ListEntry)
      → All P l
      → ((unlink found l ≡ none) × (tally found l ≡ 0))
        ⊎ ((u : Unlinked) × (unlink found l ≡ some u) × Unlinks found P l u)
  unfolding unlink tally
  unlink-cases [] all = inl (refl, refl)
  unlink-cases (e ∷ next) all = elim (Bool-cases (found e)) [
    | inl hit ↦ inr (
      record { entry = e; chain = next },
      rw hit,
      record { passes = hit; entry = all.0; others = all.1; count = λ t. refl },
    )
    | inr miss ↦ elim (unlink-cases next all.1) [
      | inl (gone, zero_left) ↦ inl (rw (miss, gone), rw miss (omega arith))
      | inr (u, here, un) ↦ inr (
        record u { chain = e ∷ u.chain },
        rw (miss, here),
        record {
          passes = un.passes;
          entry = un.entry;
          others = (all.0, un.others);
          count = λ t. omega (arith, un.count t);
        },
      )
    ]
  ]

module _ (f : FreeLists) (v : IsValid f) (k : ℕ) (low : k < 7) where
  -- Two blocks of one pair are taken out. Their bit stays as it is.
  pub dropped-IsValid :
      (e : ListEntry) (next : List ListEntry) (b : ListEntry) (l : List ListEntry)
      → f.head k ≡ e ∷ next
      → All (IsEntry k) l
      → ((t : ListEntry → Bool) → tally t next ≡ one_if (t b) + tally t l)
      → pair_of k e.addr ≡ pair_of k b.addr
      → Lists (λ x. free_at f x - one_if (covers x k e) - one_if (covers x k b)) (set_head k l f)
        × ((x : ℕ) → one_if (covers x k e) + one_if (covers x k b) ≤ free_at f x)
  unfolding in_pair tally
  dropped-IsValid e next b l first blocks count same =
      let total : (x : ℕ)
          → free_at (set_head k l f) x + one_if (covers x k e) + one_if (covers x k b)
            ≡ free_at f x =
        λ x.
          omega (arith, rw first at (free_at-set_head f k l x (omega arith)), count (covers x k)) in
      (
        record {
          valid =
              set_head-IsValid f v k (omega arith) l blocks
                (λ i _. rw (first, same) (omega (arith, count (λ c. pair_of k c.addr == i))))
                (λ x. omega (arith, total x, v.once x));
          free = λ x. omega (arith, total x);
        },
        λ x. omega (arith, total x),
      )

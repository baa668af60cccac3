-- ===== src/Machine.antt =====
-- How a kernel function runs: it takes the state and ends with a result and a new state, or it
-- stops. A failed KERNEL_ASSERT (kernel/include/kassert.h) hangs the machine.
use plusplus_os.Base.{Bool, true, false, ◌≡◌, refl}

-- The assertions, by their messages.
pub data Assertion : Type 0 where
  not_an_order : Assertion
  zero_sized : Assertion
  no_buddy_map : Assertion
  buddy_missing : Assertion
  split_order_zero : Assertion
  out_of_memory : Assertion
  out_of_address_space : Assertion
  pd_not_present : Assertion
  pt_not_present : Assertion
  not_a_power : Assertion
  no_physical_address : Assertion
  not_a_user_space : Assertion
  not_four_bits : Assertion
  rsdp_not_found : Assertion
  invalid_rsdp_signature : Assertion
  invalid_rsdp : Assertion
  xsdt_not_found : Assertion
  invalid_xsdt : Assertion
  madt_not_found : Assertion
  invalid_madt : Assertion
  id_mismatch : Assertion
  no_keyboard_ioapic : Assertion
  mcfg_not_found : Assertion
  flags_not_changed : Assertion
  object_not_aligned : Assertion
  pointer_not_aligned : Assertion
  failed_to_free : Assertion

pub data Stop : Type 0 where
  -- the endless loop of a failed KERNEL_ASSERT
  assert_failed : Assertion → Stop
  -- a field of the null pointer is read or written
  null_pointer : Stop
  -- an address is used whose upper 16 bits do not repeat bit 47
  general_protection : Stop
  -- an address that is not mapped is used
  page_fault : Stop
  -- kernel memory is read or written through a pointer of a process: what it holds then is not
  -- modelled
  kernel_memory : Stop
  -- an array is read or written outside of its elements
  out_of_bounds : Stop
  -- the fuel of a loop of the model ran out
  out_of_fuel : Stop

pub data Run (S A : Type 0) : Type 0 where
  ok : A → S → Run S A
  stop : Stop → Run S A

abbrev pub Cmd : Type 0 → Type 0 → Type 0
Cmd S A = S → Run S A

module _ {S A : Type 0} where
  abbrev pub pure : A → Cmd S A
  pure a s = ok a s

  abbrev pub halt : Stop → Cmd S A
  halt e s = stop e

module _ {S A B : Type 0} where
  abbrev pub and_then : Run S A → (A → Cmd S B) → Run S B
  and_then (ok a s) k = k a s
  and_then (stop e) k = stop e

  infixl 5 ◌>>=◌ ◌>>◌
  abbrev pub ◌>>=◌ : Cmd S A → (A → Cmd S B) → Cmd S B
  m >>= k = λ s. and_then (m s) k

  abbrev pub ◌>>◌ : Cmd S A → Cmd S B → Cmd S B
  m >> n = m >>= λ _. n

module _ {S : Type 0} where
  abbrev pub kernel_assert : Bool → Assertion → Cmd S (Unit {0})
  kernel_assert true why s = ok tt s
  kernel_assert false why s = stop (assert_failed why)

-- A run that returns meets `P`, and one that stops does so for a reason that `E` admits.
pub data Ends {S A : Type 0} (E : Stop → Type 0) (P : A → S → Type 0) : Run S A → Type 0 where
  returns : {a : A} {s : S} → P a s → Ends E P (ok a s)
  stops : {e : Stop} → E e → Ends E P (stop e)

abbrev pub Never : Stop → Type 0
Never e = ⊥

module _ {S A : Type 0} {E : Stop → Type 0} {P : A → S → Type 0} where
  pub bind :
      {B : Type 0} {Q : B → S → Type 0} {r : Run S A} {k : A → Cmd S B}
      → Ends E P r
      → ((a : A) (s : S) → P a s → Ends E Q (k a s))
      → Ends E Q (and_then r k)
  bind (returns p) next = next _ _ p
  bind (stops e) next = stops e

  pub mono :
      {Q : A → S → Type 0} {r : Run S A}
      → Ends E P r
      → ((a : A) (s : S) → P a s → Q a s)
      → Ends E Q r
  mono (returns p) weaken = returns (weaken _ _ p)
  mono (stops e) weaken = stops e

-- A run that never stops returns.
pub returned :
    {S A : Type 0} {P : A → S → Type 0} {r : Run S A}
    → Ends Never P r
    → (a : A) × (s : S) × (r ≡ ok a s) × P a s
returned (returns p) = (_, _, refl, p)
returned (stops e) = absurd e

-- The result of a run, or another value if it stopped.
abbrev pub result_or : {S A : Type 0} → A → Run S A → A
result_or d (ok a s) = a
result_or d (stop e) = d

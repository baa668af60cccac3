-- ===== src/Scheduler/Stack.antt =====
-- The words on the stack of a process.
use plusplus_os.Base.{
  ℕ, zero, suc, ◌+◌, ◌-◌, ◌*◌, ◌/◌, ◌%◌, ◌^◌, ◌<◌, ◌≤◌, ◌≡◌, ◌≢◌, refl, ap, arith, ◌∙◌, true, false,
  ◌==◌, ◌&&◌, leb, ltb, inl, inr, Bool-cases, update, update_same, update_other, add64,
}
use plusplus_os.Machine.{ok}
use plusplus_os.Scheduler.{UserSpace, Kernel, place, write_words, read_words}

-- The 160 bytes from `base` on are user memory of the space: its entry of g_pml4 covers them, and
-- it has mapped their pages.
pub record OnStack (space : UserSpace) (base : ℕ) : Type 0 where
  pub user_half : base + 160 ≤ 2 ^ 47
  pub first : base / 2 ^ 39 ≡ space.pdp_index
  pub last : (base + 159) / 2 ^ 39 ≡ space.pdp_index
  pub mapped : (a : ℕ) → base ≤ a → a < base + 160 → space.pages (a / 4096) ≡ true

-- Each of the first `n` words lies in the space.
abbrev pub Placed : Kernel → ℕ → ℕ → ℕ → Type 0
Placed s space base n =
    (i : ℕ) → i < n → place s.pml4 s.user_spaces (add64 base (8 * i)) ≡ ok space tt

pub OnStack-Placed :
    (s : Kernel) (space base : ℕ)
    → space ≢ 0
    → s.pml4 (s.user_spaces space).pdp_index ≡ space
    → OnStack (s.user_spaces space) base
    → Placed s space base 20
unfolding place
OnStack-Placed s space base some here h i low =
    let a : ℕ = base + 8 * i in
    let address : add64 base (8 * i) ≡ a = omega (arith, h.user_half) in
    let canonical : (leb (2 ^ 47) a && ltb a (2 ^ 64 - 2 ^ 47)) ≡ false =
      ground (arith, h.user_half) in
    let index : a / 2 ^ 39 % 512 ≡ (s.user_spaces space).pdp_index =
      omega (arith, h.user_half, h.first, h.last) in
    let user : leb 480 (s.user_spaces space).pdp_index ≡ false =
      ground (arith, h.user_half, h.first) in
    let not_null : (space == 0) ≡ false = ground (arith, some) in
    rw
      (
        address,
        canonical,
        index,
        user,
        here,
        not_null,
        h.mapped a (omega arith) (omega arith),
        h.mapped (a + 7) (omega arith) (omega arith),
      )
      refl

words_apart : (base i n : ℕ) → i < n → n < 20 → add64 base (8 * i) ≢ add64 base (8 * n)
words_apart base i n lt few e = absurd (omega arith)

-- The words of `words` are written to the space, and all other spaces keep their memory.
pub record Written (s : Kernel) (space base n : ℕ) (words : ℕ → ℕ) (memory : ℕ → ℕ → ℕ)
    : Type 0 where
  pub run : write_words n base words s ≡ ok tt (record s { memory = memory })
  pub word : (i : ℕ) → i < n → memory space (add64 base (8 * i)) ≡ words i
  pub others : (r : ℕ) → r ≢ space → (a : ℕ) → memory r a ≡ s.memory r a

pub write_words_lem :
    (s : Kernel) (space base n : ℕ) (words : ℕ → ℕ)
    → n ≤ 20
    → Placed s space base n
    → (memory : ℕ → ℕ → ℕ) × Written s space base n words memory
unfolding write_words
write_words_lem s space base zero words few placed =
    (s.memory, record { run = refl; word = λ i h. absurd (omega arith); others = λ r ne a. refl })
write_words_lem s space base (suc n) words few placed =
    let (m, w) =
      write_words_lem s space base n words (omega arith) (λ i h. placed i (omega arith)) in
    let changed : ℕ → ℕ = update (m space) (add64 base (8 * n)) (words n) in
    (
      update m space changed,
      record {
        run = rw (w.run, placed n (omega arith)) refl;
        word = λ i h.
            ap (λ (f : ℕ → ℕ). f (add64 base (8 * i))) (update_same m space changed)
            ∙ (elim (Bool-cases (i == n)) [
              | inl e ↦
                  let same : i ≡ n = ground arith in
                  rw same (update_same (m space) (add64 base (8 * n)) (words n))
              | inr ne ↦
                  update_other (m space) (add64 base (8 * n)) (add64 base (8 * i)) (words n)
                    (words_apart base i n (ground arith) (omega arith))
                  ∙ w.word i (ground arith)
            ]);
        others =
            λ r ne a. ap (λ (f : ℕ → ℕ). f a) (update_other m space r changed ne) ∙ w.others r ne a;
      },
    )

-- The words are read from the space, and the rest of the frame stays.
pub record WordsRead (s : Kernel) (space base n : ℕ) (frame words : ℕ → ℕ) : Type 0 where
  pub run : read_words n base frame s ≡ ok words s
  pub word : (i : ℕ) → i < n → words i ≡ s.memory space (add64 base (8 * i))
  pub rest : (i : ℕ) → n ≤ i → words i ≡ frame i

pub read_words_lem :
    (s : Kernel) (space base n : ℕ) (frame : ℕ → ℕ)
    → Placed s space base n
    → (words : ℕ → ℕ) × WordsRead s space base n frame words
unfolding read_words
read_words_lem s space base zero frame placed =
    (frame, record { run = refl; word = λ i h. absurd (omega arith); rest = λ i h. refl })
read_words_lem s space base (suc n) frame placed =
    let (f, w) = read_words_lem s space base n frame (λ i h. placed i (omega arith)) in
    let v : ℕ = s.memory space (add64 base (8 * n)) in
    (
      update f n v,
      record {
        run = rw (w.run, placed n (omega arith)) refl;
        word = λ i h. elim (Bool-cases (i == n)) [
          | inl e ↦ let same : i ≡ n = ground arith in rw same (update_same f n v)
          | inr ne ↦ update_other f n i v (ground arith) ∙ w.word i (ground arith)
        ];
        rest = λ i h. update_other f n i v (λ e. absurd (omega arith)) ∙ w.rest i (omega arith);
      },
    )

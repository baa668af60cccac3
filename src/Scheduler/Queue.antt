-- ===== src/Scheduler/Queue.antt =====
-- What the pointers of the process queue stand for, and moving the first process to the back.
use plusplus_os.Base.{
  Distinct, ℕ, ◌≡◌, ◌≢◌, refl, sym, ap, arith, ◌∙◌, ◌==◌, false, List, [], ◌∷◌, ◌++◌, update,
  update_same, update_other, update_field, All,
}
use plusplus_os.Machine.{ok, Ends, Never, returns}
use plusplus_os.Scheduler.{Process, Kernel, move_to_back, rotate_queue}

-- The chain of the `next` pointers from `p` on is the list, and ends with null.
abbrev pub Chain : (ℕ → ℕ) → List ℕ → ℕ → Type 0
Chain next [] p = p ≡ 0
Chain next (q ∷ l) p = (p ≡ q) × (q ≢ 0) × Chain next l (next q)

abbrev pub last_of : ℕ → List ℕ → ℕ
last_of p [] = p
last_of p (q ∷ l) = last_of q l

-- The queue holds the processes of the list, the running one first.
pub record IsQueue (s : Kernel) (p : ℕ) (l : List ℕ) : Type 0 where
  pub chain : Chain (λ q. (s.processes q).next) (p ∷ l) s.head
  pub last : s.tail ≡ last_of p l
  pub distinct : Distinct (p ∷ l)

All-last_of : (P : ℕ → Type 0) (p : ℕ) (l : List ℕ) → P p → All P l → P (last_of p l)
All-last_of P p [] h all = h
All-last_of P p (q ∷ l) h all = All-last_of P q l all.0 all.1

Chain-last_of : (next : ℕ → ℕ) (q : ℕ) (l : List ℕ) (h : ℕ) → Chain next (q ∷ l) h → last_of q l ≢ 0
Chain-last_of next q [] h chain = chain.1
Chain-last_of next q (r ∷ l) h chain = Chain-last_of next r l (next q) chain.2

-- A chain is kept when only the last process's pointer changes, from null to one more process.
Chain-append :
    (next next' : ℕ → ℕ) (p q h : ℕ) (l : List ℕ)
    → Chain next (q ∷ l) h
    → Distinct (q ∷ l)
    → All (λ r. r ≢ p) (q ∷ l)
    → p ≢ 0
    → next' p ≡ 0
    → next' (last_of q l) ≡ p
    → ((r : ℕ) → r ≢ p → r ≢ last_of q l → next' r ≡ next r)
    → Chain next' (q ∷ l ++ p ∷ []) h
Chain-append next next' p q h [] chain distinct fresh some_p p_end joined same =
    (chain.0, chain.1, (joined, some_p, p_end))
Chain-append next next' p q h (r ∷ l) chain distinct fresh some_p p_end joined same =
    let unchanged : next' q ≡ next q =
      same q fresh.0 λ e. All-last_of (λ x. x ≢ q) r l distinct.0.0 distinct.0.1 (sym e) in
    (
      chain.0,
      chain.1,
      rw unchanged (
          Chain-append next next' p r (next q) l chain.2 distinct.1 fresh.1 some_p p_end joined
            same),
    )

-- The queue after a switch: the running process is the last one.
abbrev pub IsRotated : Kernel → ℕ → List ℕ → Type 0
IsRotated t p [] = IsQueue t p []
IsRotated t p (q ∷ l) = IsQueue t q (l ++ p ∷ [])

-- Nothing but the queue's pointers changed.
pub record Relinked (s t : Kernel) : Type 0 where
  pub spaces : (r : ℕ) → (t.processes r).addr_space ≡ (s.processes r).addr_space
  pub stacks : (r : ℕ) → (t.processes r).context_stack_ptr ≡ (s.processes r).context_stack_ptr
  pub pids : (r : ℕ) → (t.processes r).pid ≡ (s.processes r).pid
  pub tables : t.pml4 ≡ s.pml4
  pub user_spaces : t.user_spaces ≡ s.user_spaces
  pub memory : t.memory ≡ s.memory
  pub frame : t.frame ≡ s.frame

last_of-append : (q p : ℕ) (l : List ℕ) → last_of q (l ++ p ∷ []) ≡ p
last_of-append q p [] = refl
last_of-append q p (r ∷ l) = last_of-append r p l

All-append : (P : ℕ → Type 0) (l : List ℕ) (p : ℕ) → All P l → P p → All P (l ++ p ∷ [])
All-append P [] p all h = (h, tt)
All-append P (q ∷ l) p all h = (all.0, All-append P l p all.1 h)

Distinct-append : (l : List ℕ) (p : ℕ) → Distinct l → All (λ r. r ≢ p) l → Distinct (l ++ p ∷ [])
Distinct-append [] p d fresh = (tt, tt)
Distinct-append (q ∷ l) p d fresh =
    (All-append (λ r. r ≢ q) l p d.0 (λ e. fresh.0 (sym e)), Distinct-append l p d.1 fresh.1)

module _ (s : Kernel) (p q : ℕ) (l : List ℕ) (queue : IsQueue s p (q ∷ l)) where
  -- The processes after tmp->next = 0 and tail->next = tmp.
  abbrev cleared : ℕ → Process
  cleared = update s.processes p (record (s.processes p) { next = 0 })

  abbrev relinked : ℕ → Process
  relinked = update cleared s.tail (record (cleared s.tail) { next = p })

  abbrev rotated : Kernel
  rotated = record s { head = q; tail = p; processes = relinked }

  move_to_back_lem : move_to_back p q s ≡ ok tt rotated
  unfolding move_to_back
  move_to_back_lem =
      let some_p : (p == 0) ≡ false = ground (arith, queue.chain.1) in
      let some_tail : (s.tail == 0) ≡ false =
        ground (arith, queue.last, Chain-last_of _ q l _ queue.chain.2) in
      rw (some_p, some_tail) refl

  tail_other : s.tail ≢ p
  tail_other e =
      All-last_of (λ x. x ≢ p) q l queue.distinct.0.0 queue.distinct.0.1 (sym queue.last ∙ e)

  head_ends : (relinked p).next ≡ 0
  head_ends =
      ap (λ (x : Process). x.next) (update_other cleared s.tail p _ λ e. tail_other (sym e))
      ∙ ap (λ (x : Process). x.next) (update_same s.processes p _)

  tail_joined : (relinked (last_of q l)).next ≡ p
  tail_joined = rw (← queue.last) (ap (λ (x : Process). x.next) (update_same cleared s.tail _))

  others_keep : (r : ℕ) → r ≢ p → r ≢ last_of q l → (relinked r).next ≡ (s.processes r).next
  others_keep r not_p not_last =
      ap (λ (x : Process). x.next) (update_other cleared s.tail r _ λ e. not_last (e ∙ queue.last))
      ∙ ap (λ (x : Process). x.next) (update_other s.processes p r _ not_p)

  kept :
      (F : Process → ℕ) (r : ℕ)
      → F (record (cleared s.tail) { next = p }) ≡ F (cleared s.tail)
      → F (record (s.processes p) { next = 0 }) ≡ F (s.processes p)
      → F (relinked r) ≡ F (s.processes r)
  kept F r h h' = update_field F cleared s.tail _ r h ∙ update_field F s.processes p _ r h'

  rotated-Relinked : Relinked s rotated
  rotated-Relinked = record {
    spaces = λ r. kept (λ (x : Process). x.addr_space) r refl refl;
    stacks = λ r. kept (λ (x : Process). x.context_stack_ptr) r refl refl;
    pids = λ r. kept (λ (x : Process). x.pid) r refl refl;
    tables = refl;
    user_spaces = refl;
    memory = refl;
    frame = refl;
  }

  rotated-IsQueue : IsQueue rotated q (l ++ p ∷ [])
  rotated-IsQueue = record {
    chain =
        Chain-append (λ r. (s.processes r).next) (λ r. (rotated.processes r).next) p q q l
          (refl, queue.chain.2.1, queue.chain.2.2) queue.distinct.1 queue.distinct.0 queue.chain.1
          head_ends tail_joined others_keep;
    last = sym (last_of-append q p l);
    distinct = Distinct-append (q ∷ l) p queue.distinct.1 queue.distinct.0;
  }

-- All other processes than the first and the last lead to the same one as before.
abbrev pub Untouched : Kernel → ℕ → List ℕ → Kernel → Type 0
Untouched s p l t = (r : ℕ) → r ≢ p → r ≢ last_of p l → (t.processes r).next ≡ (s.processes r).next

-- rotate_queue, on a queue of distinct processes, returns, moves the first process to the back and
-- changes nothing else.
pub rotate_queue_lem :
    (s : Kernel) (p : ℕ) (l : List ℕ)
    → IsQueue s p l
    → Ends Never (λ _ t. IsRotated t p l × Relinked s t × Untouched s p l t) (rotate_queue s)
unfolding rotate_queue
rotate_queue_lem s p [] queue =
    let here : s.head ≡ p = queue.chain.0 in
    let some_p : (s.head == 0) ≡ false = ground (arith, here, queue.chain.1) in
    let alone : (s.processes s.head).next ≡ 0 =
      ap (λ (x : ℕ). (s.processes x).next) here ∙ queue.chain.2 in
    rw some_p (
      rw alone (
        returns (
          queue,
          record {
            spaces = λ r. refl;
            stacks = λ r. refl;
            pids = λ r. refl;
            tables = refl;
            user_spaces = refl;
            memory = refl;
            frame = refl;
          },
          λ r not_first not_last. refl,
        )))
rotate_queue_lem s p (q ∷ l) queue =
    let here : s.head ≡ p = queue.chain.0 in
    let some_p : (s.head == 0) ≡ false = ground (arith, here, queue.chain.1) in
    let some_q : (q == 0) ≡ false = ground (arith, queue.chain.2.1) in
    let more : (s.processes s.head).next ≡ q =
      ap (λ (x : ℕ). (s.processes x).next) here ∙ queue.chain.2.0 in
    let run : move_to_back s.head q s ≡ ok tt (rotated s p q l queue) =
      ap (λ (x : ℕ). move_to_back x q s) here ∙ move_to_back_lem s p q l queue in
    rw some_p (
      rw (more, some_q)
        (rw run (
          returns (
            rotated-IsQueue s p q l queue,
            rotated-Relinked s p q l queue,
            others_keep s p q l queue,
          ))))

-- A change of the processes that keeps their pointers to the next one keeps the queue.
Chain-same :
    (next next' : ℕ → ℕ)
    → ((r : ℕ) → next' r ≡ next r)
    → (l : List ℕ) (h : ℕ) → Chain next l h
    → Chain next' l h
Chain-same next next' same [] h chain = chain
Chain-same next next' same (q ∷ l) h chain =
    (chain.0, chain.1, rw (same q) (Chain-same next next' same l (next q) chain.2))

pub IsQueue-same :
    (s t : Kernel) (p : ℕ) (l : List ℕ)
    → ((r : ℕ) → (t.processes r).next ≡ (s.processes r).next)
    → t.head ≡ s.head
    → t.tail ≡ s.tail
    → IsQueue s p l
    → IsQueue t p l
IsQueue-same s t p l same head tail queue = record {
  chain = rw head (
      Chain-same (λ q. (s.processes q).next) (λ q. (t.processes q).next) same (p ∷ l) s.head
        queue.chain);
  last = tail ∙ queue.last;
  distinct = queue.distinct;
}

pub IsRotated-same :
    (s t : Kernel) (p : ℕ) (l : List ℕ)
    → t.processes ≡ s.processes
    → t.head ≡ s.head
    → t.tail ≡ s.tail
    → IsRotated s p l
    → IsRotated t p l
IsRotated-same s t p [] same head tail queue =
    IsQueue-same s t p [] (λ r. ap (λ (f : ℕ → Process). (f r).next) same) head tail queue
IsRotated-same s t p (q ∷ l) same head tail queue =
    IsQueue-same s t q (l ++ p ∷ []) (λ r. ap (λ (f : ℕ → Process). (f r).next) same) head tail
      queue

-- ===== src/Scheduler/Switch.antt =====
-- context_switch: what it saves, what it restores, and who runs next.
use plusplus_os.Base.{
  ℕ, ◌*◌, ◌<◌, ◌≡◌, ◌≢◌, refl, sym, ap, arith, ◌∙◌, ◌==◌, true, false, List, [], ◌∷◌, update,
  update_same, update_other, update_field, All, add64, sub64,
}
use plusplus_os.Machine
use plusplus_os.Machine.{Run, Cmd, ok, Ends, Never, returns, and_then, ◌>>=◌, ◌>>◌}
use plusplus_os.Scheduler.{
  Process, UserSpace, Kernel, save_context, load_context, map_address_space, unmap_address_space,
  context_switch,
}
use plusplus_os.Scheduler.Queue.{
  IsQueue, IsQueue-same, IsRotated, IsRotated-same, Relinked, rotate_queue_lem,
}
use plusplus_os.Scheduler.Stack.{
  OnStack, OnStack-Placed, Placed, Written, write_words_lem, WordsRead, read_words_lem,
}

-- The 20 words at the process's context_stack_ptr, in its own memory, are those of the frame.
abbrev pub Suspended : Kernel → ℕ → (ℕ → ℕ) → Type 0
Suspended s r frame =
    (i : ℕ)
    → i < 20
    → s.memory (s.processes r).addr_space (add64 (s.processes r).context_stack_ptr (8 * i))
      ≡ frame i

-- The process that runs after the first one.
abbrev pub next_of : ℕ → List ℕ → ℕ
next_of p [] = p
next_of p (q ∷ l) = q

abbrev pub space_of : Kernel → ℕ → UserSpace
space_of s r = s.user_spaces (s.processes r).addr_space

-- What a switch from the process `p` does; the processes `l` wait behind it.
pub record Switched (s : Kernel) (p : ℕ) (l : List ℕ) (t : Kernel) : Type 0 where
  pub queue : IsRotated t p l
  pub runs : t.head ≡ next_of p l
  pub mapped : t.pml4 (space_of t t.head).pdp_index ≡ (t.processes t.head).addr_space
  pub pids : (r : ℕ) → (t.processes r).pid ≡ (s.processes r).pid
  pub tables :
      (k : ℕ)
      → k ≢ (space_of s p).pdp_index
      → k ≢ (space_of s (next_of p l)).pdp_index
      → t.pml4 k ≡ s.pml4 k
  pub saved : Suspended t p s.frame
  pub restored : Suspended t t.head t.frame
  pub others :
      (r : ℕ) (frame : ℕ → ℕ)
      → (s.processes r).addr_space ≢ (s.processes p).addr_space
      → r ≢ p
      → Suspended s r frame
      → Suspended t r frame

IsRotated-head : (t : Kernel) (p : ℕ) (l : List ℕ) → IsRotated t p l → t.head ≡ next_of p l
IsRotated-head t p [] queue = queue.chain.0
IsRotated-head t p (q ∷ l) queue = queue.chain.0

IsRotated-some : (t : Kernel) (p : ℕ) (l : List ℕ) → IsRotated t p l → next_of p l ≢ 0
IsRotated-some t p [] queue = queue.chain.1
IsRotated-some t p (q ∷ l) queue = queue.chain.1

All-next_of : (P : ℕ → Type 0) (p : ℕ) (l : List ℕ) → All P (p ∷ l) → P (next_of p l)
All-next_of P p [] all = all.0
All-next_of P p (q ∷ l) all = all.1.0

-- The process `p` is interrupted in user mode and the processes `l` wait: they have address spaces
-- whose page directory pointer tables are found, that of `p` is mapped, and the frame fits below
-- the stack pointer of `p` and lies on the stacks of the others.
pub record IsReady (s : Kernel) (p : ℕ) (l : List ℕ) : Type 0 where
  pub queue : IsQueue s p l
  pub some_spaces : All (λ r. (s.processes r).addr_space ≢ 0) (p ∷ l)
  pub found : All (λ r. (space_of s r).pdp_found ≡ true) (p ∷ l)
  pub running : s.pml4 (space_of s p).pdp_index ≡ (s.processes p).addr_space
  pub stack : OnStack (space_of s p) (sub64 (s.frame 18) 160)
  pub waiting : All (λ r. OnStack (space_of s r) (s.processes r).context_stack_ptr) l

-- Only the stack pointer of `p` changes.
next_OnStack_of :
    (s : Kernel) (stacks : ℕ → ℕ) (p : ℕ) (l : List ℕ)
    → OnStack (space_of s p) (stacks p)
    → All (λ r. OnStack (space_of s r) (s.processes r).context_stack_ptr) l
    → All (λ r. r ≢ p) l
    → ((r : ℕ) → r ≢ p → stacks r ≡ (s.processes r).context_stack_ptr)
    → OnStack (space_of s (next_of p l)) (stacks (next_of p l))
next_OnStack_of s stacks p [] first waiting apart same = first
next_OnStack_of s stacks p (q ∷ l) first waiting apart same = rw (same q apart.0) waiting.0

module _ (s : Kernel) (p : ℕ) (l : List ℕ) (ready : IsReady s p l) where
  open ready use {queue, some_spaces, found, running, waiting}

  abbrev stack : ℕ
  stack = sub64 (s.frame 18) 160

  written : (memory : ℕ → ℕ → ℕ) × Written s (s.processes p).addr_space stack 20 s.frame memory
  written =
      write_words_lem s (s.processes p).addr_space stack 20 s.frame (omega arith)
        (OnStack-Placed s (s.processes p).addr_space stack some_spaces.0 running ready.stack)

  -- The state after the registers are saved.
  abbrev stored : Kernel
  stored = record s {
    memory = written.0;
    processes =
        update s.processes s.head (record (s.processes s.head) { context_stack_ptr = stack });
  }

  some_head : (s.head == 0) ≡ false
  some_head = ground (arith, queue.chain.0, queue.chain.1)

  save_context_lem : save_context s ≡ ok tt stored
  unfolding save_context
  save_context_lem = rw written.1.run (rw some_head refl)

  stored_space : (r : ℕ) → (stored.processes r).addr_space ≡ (s.processes r).addr_space
  stored_space r = update_field (λ (x : Process). x.addr_space) s.processes s.head _ r refl

  -- Its address space is not mapped any more.
  abbrev unmapped : Kernel
  unmapped = record stored { pml4 = update s.pml4 (space_of stored s.head).pdp_index 0 }

  unmap_lem : unmap_address_space (stored.processes s.head).addr_space stored ≡ ok tt unmapped
  unfolding unmap_address_space
  unmap_lem =
      let some : ((stored.processes s.head).addr_space == 0) ≡ false = ground (
        arith,
        stored_space s.head,
        ap (λ (r : ℕ). (s.processes r).addr_space) queue.chain.0,
        some_spaces.0,
      ) in
      rw some refl

  unmapped-IsQueue : IsQueue unmapped p l
  unmapped-IsQueue =
      IsQueue-same s unmapped p l
        (λ r. update_field (λ (x : Process). x.next) s.processes s.head _ r refl) refl refl queue

  stack_of_p : (stored.processes p).context_stack_ptr ≡ stack
  stack_of_p =
      rw (← queue.chain.0)
        (ap (λ (x : Process). x.context_stack_ptr) (update_same s.processes s.head _))

  stack_of_other :
      (r : ℕ) → r ≢ p → (stored.processes r).context_stack_ptr ≡ (s.processes r).context_stack_ptr
  stack_of_other r other =
      ap (λ (x : Process). x.context_stack_ptr)
        (update_other s.processes s.head r _ λ e. other (e ∙ queue.chain.0))

  stored_saved : Suspended stored p s.frame
  stored_saved i h = rw (stack_of_p, stored_space p) (written.1.word i h)

  stored_others :
      (r : ℕ) (frame : ℕ → ℕ)
      → (s.processes r).addr_space ≢ (s.processes p).addr_space
      → r ≢ p
      → Suspended s r frame
      → Suspended stored r frame
  stored_others r frame apart other h i low =
      rw (stack_of_other r other, stored_space r)
        (written.1.others (s.processes r).addr_space apart
            (add64 (s.processes r).context_stack_ptr (8 * i))
          ∙ h i low)

  next_stack : OnStack (space_of s (next_of p l)) (stored.processes (next_of p l)).context_stack_ptr
  next_stack =
      next_OnStack_of s (λ r. (stored.processes r).context_stack_ptr) p l
        (rw stack_of_p ready.stack) waiting queue.distinct.0 stack_of_other

  -- Any state that differs from it in pointers of the queue only.
  module _ (u : Kernel) (rotated : IsRotated u p l) (same : Relinked unmapped u) where
    Suspended-Relinked : (r : ℕ) (frame : ℕ → ℕ) → Suspended stored r frame → Suspended u r frame
    Suspended-Relinked r frame h i low =
        rw (same.stacks r, same.spaces r)
          (ap
              (λ (m : ℕ → ℕ → ℕ).
                m (stored.processes r).addr_space
                  (add64 (stored.processes r).context_stack_ptr (8 * i)))
              same.memory
            ∙ h i low)

    abbrev space : ℕ
    space = (u.processes u.head).addr_space

    space_of_next : space ≡ (s.processes (next_of p l)).addr_space
    space_of_next =
        same.spaces u.head
        ∙ stored_space u.head
        ∙ ap (λ (r : ℕ). (s.processes r).addr_space) (IsRotated-head u p l rotated)

    stack_of_next :
        (u.processes u.head).context_stack_ptr ≡ (stored.processes (next_of p l)).context_stack_ptr
    stack_of_next =
        same.stacks u.head
        ∙ ap (λ (r : ℕ). (stored.processes r).context_stack_ptr) (IsRotated-head u p l rotated)

    -- The next address space is mapped.
    abbrev mapped : Kernel
    mapped = record u { pml4 = update u.pml4 (u.user_spaces space).pdp_index space }

    some_space : space ≢ 0
    some_space e =
        All-next_of (λ r. (s.processes r).addr_space ≢ 0) p l some_spaces (sym space_of_next ∙ e)

    map_lem : map_address_space space u ≡ ok tt mapped
    unfolding map_address_space
    map_lem =
        let some : (space == 0) ≡ false = ground (arith, some_space) in
        let table : (u.user_spaces space).pdp_found ≡ true =
          rw (same.user_spaces, space_of_next)
            (All-next_of (λ r. (space_of s r).pdp_found ≡ true) p l found) in
        rw some (rw table refl)

    abbrev base : ℕ
    base = (u.processes u.head).context_stack_ptr

    next_OnStack : OnStack (u.user_spaces space) base
    next_OnStack = rw (same.user_spaces, space_of_next, stack_of_next) next_stack

    next_Placed : Placed mapped space base 20
    next_Placed =
        OnStack-Placed mapped space base some_space
          (update_same u.pml4 (u.user_spaces space).pdp_index space) next_OnStack

    restored : (words : ℕ → ℕ) × WordsRead mapped space base 20 u.frame words
    restored = read_words_lem mapped space base 20 u.frame next_Placed

    index_of_next : (u.user_spaces space).pdp_index ≡ (space_of s (next_of p l)).pdp_index
    index_of_next = rw (same.user_spaces, space_of_next) refl

    index_of_first : (space_of stored s.head).pdp_index ≡ (space_of s p).pdp_index
    index_of_first = rw (stored_space s.head, queue.chain.0) refl

    abbrev loaded : Kernel
    loaded = record mapped { frame = restored.0 }

    loaded-Switched : Switched s p l loaded
    loaded-Switched = record {
      queue = IsRotated-same u loaded p l refl refl refl rotated;
      runs = IsRotated-head u p l rotated;
      mapped = update_same u.pml4 (u.user_spaces space).pdp_index space;
      pids = λ r. same.pids r ∙ update_field (λ (x : Process). x.pid) s.processes s.head _ r refl;
      tables = λ k not_first not_next.
          update_other u.pml4 (u.user_spaces space).pdp_index k space
            (λ e. not_next (e ∙ index_of_next))
          ∙ ap (λ (f : ℕ → ℕ). f k) same.tables
          ∙ update_other s.pml4 (space_of stored s.head).pdp_index k 0
              (λ e. not_first (e ∙ index_of_first));
      saved = Suspended-Relinked p s.frame stored_saved;
      restored = λ i low. sym (restored.1.word i low);
      others =
          λ r frame apart other h. Suspended-Relinked r frame (stored_others r frame apart other h);
    }

    some_next : (u.head == 0) ≡ false
    some_next = ground (arith, IsRotated-head u p l rotated, IsRotated-some u p l rotated)

    load_context_lem : load_context mapped ≡ ok tt loaded
    unfolding load_context
    load_context_lem = rw some_next (rw restored.1.run refl)

  -- context_switch, with the first process of the queue interrupted in user mode: if all processes of
  -- the queue have address spaces whose tables are found, that of the first one is mapped, and user
  -- memory is mapped for the frame below its stack pointer and for those on the stacks of the
  -- others, it returns. The process is the last of the queue, and its registers and return state
  -- lie on its stack; the next process runs, in its address space, with the registers and the
  -- return state that lay on its stack; no other entry of g_pml4 changes, the processes keep their
  -- pids, and what lies on the stacks of processes with other address spaces is as before.
  pub context_switch_lem : Ends Never (λ _ t. Switched s p l t) (context_switch s)
  unfolding context_switch
  context_switch_lem = rw save_context_lem (
      rw some_head (
        rw unmap_lem (
          Machine.bind (rotate_queue_lem unmapped p l unmapped-IsQueue) λ _ u got.
            rw (some_next u got.0 got.1) (
              rw (map_lem u got.0 got.1)
                (rw (load_context_lem u got.0 got.1) (returns (loaded-Switched u got.0 got.1)))))))

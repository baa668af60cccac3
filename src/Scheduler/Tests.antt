-- ===== src/Scheduler/Tests.antt =====
-- The theorems of the process system at concrete states.
use plusplus_os.Base.{ℕ, ◌+◌, ◌-◌, ◌≤◌, refl, true, arith, [], ◌∷◌, ◌==◌, if◌then◌else◌}
use plusplus_os.Machine.{Ends, Never}
use plusplus_os.Scheduler.{Process, Kernel, context_switch, rotate_queue}
use plusplus_os.Scheduler.Queue.{IsQueue, IsRotated, Relinked, Untouched, rotate_queue_lem}
use plusplus_os.Scheduler.Switch.{Switched, IsReady, context_switch_lem}
use plusplus_os.Scheduler.Stack.{OnStack}

abbrev process : ℕ → ℕ → ℕ → Process
process n a stack = record { next = n; addr_space = a; pid = 0; context_stack_ptr = stack }

-- The processes at 1, 2 and 3, which wait in this order.
abbrev three_processes : ℕ → Process
three_processes p =
    if p == 1
    then process 2 100 0
    else if p == 2
    then process 3 200 0x7000
    else process 0 300 0x7000

abbrev kernel : Kernel
kernel = record {
  processes = three_processes;
  head = 1;
  tail = 3;
  pml4 = λ k. if k == 0 then 100 else 0;
  user_spaces = λ space. record { pdp_index = 0; pdp_found = true; pages = λ page. true };
  memory = λ space a. space + a;
  frame = λ i. 0x6000;
}

kernel-IsQueue : IsQueue kernel 1 (2 ∷ 3 ∷ [])
kernel-IsQueue = record {
  chain = (refl, omega arith, (refl, omega arith, (refl, omega arith, refl)));
  last = refl;
  distinct = ((omega arith, (omega arith, tt)), ((omega arith, tt), (tt, tt)));
}

rotate_queue_lem_example :
    Ends Never
      (λ _ t. IsRotated t 1 (2 ∷ 3 ∷ []) × Relinked kernel t × Untouched kernel 1 (2 ∷ 3 ∷ []) t)
      (rotate_queue kernel)
rotate_queue_lem_example = rotate_queue_lem kernel 1 (2 ∷ 3 ∷ []) kernel-IsQueue

user_stack : (base : ℕ) → base ≤ 0x7000 → OnStack (kernel.user_spaces 0) base
user_stack base low = record {
  user_half = omega arith;
  first = omega arith;
  last = omega arith;
  mapped = λ a above below. refl;
}

kernel-IsReady : IsReady kernel 1 (2 ∷ 3 ∷ [])
kernel-IsReady = record {
  queue = kernel-IsQueue;
  some_spaces = (omega arith, (omega arith, (omega arith, tt)));
  found = (refl, (refl, (refl, tt)));
  running = refl;
  stack = user_stack (0x6000 - 160) (omega arith);
  waiting = (user_stack 0x7000 (omega arith), (user_stack 0x7000 (omega arith), tt));
}

context_switch_lem_example :
    Ends Never (λ _ t. Switched kernel 1 (2 ∷ 3 ∷ []) t) (context_switch kernel)
context_switch_lem_example = context_switch_lem kernel 1 (2 ∷ 3 ∷ []) kernel-IsReady

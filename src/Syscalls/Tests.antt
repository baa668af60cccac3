-- ===== src/Syscalls/Tests.antt =====
-- kernel/src/syscalls.c: system calls of a table with two functions.
use plusplus_os.Base.{ℕ, ◌-◌, ◌*◌, ◌^◌, ◌≡◌, refl, some, arith, true, false}
use plusplus_os.Syscalls.{syscall_dispatcher, syscall_get_keystate, prepare_syscalls}
use plusplus_os.Syscalls.Dispatch.{syscall_dispatcher_negative}

-- g_syscall_table is at 0x1000; each word of memory is its address.
abbrev words : ℕ → ℕ
words a = a

syscall_dispatcher_negative_example :
    syscall_dispatcher words 0x1000 (2 ^ 64 - 2) ≡ some (words (0x1000 - 8 * 2))
syscall_dispatcher_negative_example =
    syscall_dispatcher_negative words 0x1000 2 (omega arith) (omega arith) (omega arith)
      (omega arith) (λ e. omega arith)

-- Keycodes from 0x80 on are never pressed.
get_keystate_test : syscall_get_keystate (λ k. true) 0x90 ≡ false
unfolding syscall_get_keystate
get_keystate_test = refl

-- The user base segment 0x1b and the kernel's code segment.
prepare_syscalls_test :
    (prepare_syscalls 0xfffff00000123456 (λ i. 0) 1 2 3 4 5).star_high ≡ 0x1b0008
unfolding prepare_syscalls
prepare_syscalls_test = refl

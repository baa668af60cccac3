-- ===== src/Syscalls/Dispatch.antt =====
-- kernel/src/syscalls.c: which words of memory the dispatcher calls.
use plusplus_os.Base.{ℕ, ◌-◌, ◌*◌, ◌^◌, ◌<◌, ◌≤◌, ◌≡◌, ◌≢◌, some, arith, u64, add64, ◌<<<◌}
use plusplus_os.Syscalls.{is_ge, syscall_dispatcher}

-- The number 2 ^ 64 - back, which is negative for the comparison, passes the check: the word that lies
-- `back` places before the table, up to 2 ^ 61 of them and not below address 0, is called if it is
-- not 0.
pub syscall_dispatcher_negative :
    (words : ℕ → ℕ) (table back : ℕ)
    → 0 < back
    → back ≤ 2 ^ 61
    → 8 * back ≤ table
    → table < 2 ^ 64
    → words (table - 8 * back) ≢ 0
    → syscall_dispatcher words table (2 ^ 64 - back) ≡ some (words (table - 8 * back))
unfolding syscall_dispatcher is_ge
syscall_dispatcher_negative words table back h near room fits ne =
    let at : add64 (u64 ((2 ^ 64 - back) <<< 3)) table ≡ table - 8 * back = omega arith in
    rw at (ground arith)

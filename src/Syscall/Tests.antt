-- ===== src/Syscall/Tests.antt =====
-- Runs of the argument fetching, in a user memory that is 0 but for the word at 12.
use pcs_ii.Base.{◌≡◌, ◌≤◌, ◌<◌, ◌+◌, ◌*◌, ◌%◌, ◌^◌, refl, arith, some, ◌==◌, if◌then◌else◌}
use pcs_ii.Memory.{Memory}
use pcs_ii.Syscall.{argptr, argint, fetchint, fetchstr, user_word}
use pcs_ii.Syscall.Fetch.{argptr_in_bounds, FetchSpec, fetchstr-FetchSpec}

abbrev user : Memory
user a = if a == 12 then 100 else 0

argptr_accepts : argptr user 4096 8 0 16 ≡ some 100
unfolding argptr argint fetchint
argptr_accepts = refl

argptr_in_bounds_example :
    (100 + 16 ≤ 4096)
    × (16 < 2 ^ 31)
    × ((8 + 4 + 4 * 0) % 2 ^ 32 + 4 ≤ 4096)
    × (100 ≡ user_word user ((8 + 4 + 4 * 0) % 2 ^ 32))
argptr_in_bounds_example =
    argptr_in_bounds user 4096 8 0 16 100 (omega arith) (omega arith) argptr_accepts

fetchstr-FetchSpec_example : FetchSpec user 4096 12 (fetchstr user 4096 12)
fetchstr-FetchSpec_example = fetchstr-FetchSpec user 4096 12

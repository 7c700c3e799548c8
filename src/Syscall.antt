-- ===== src/Syscall.antt =====
-- syscall.c: fetching the arguments of a system call from user memory, and the dispatch. User memory
-- is what the kernel reads at user addresses, `sz` and `esp` are those of the process. `none` is the
-- return of -1. An int is its 32-bit pattern.
pub mod Fetch
mod Tests
use pcs_ii.Base.{
  get_elem?, ℕ, zero, suc, ◌+◌, ◌-◌, ◌*◌, ◌%◌, ◌^◌, Bool, true, false, not, ◌&&◌, ◌||◌, List, [],
  ◌∷◌, Option, none, some, ltb, leb, ◌==◌, if◌then◌else◌,
}
use pcs_ii.Memory.{Memory}

-- The word at a user address.
abbrev pub user_word : Memory → ℕ → ℕ
user_word m a = m a + m (a + 1) * 2 ^ 8 + m (a + 2) * 2 ^ 16 + m (a + 3) * 2 ^ 24

unfoldable pub fetchint : Memory → ℕ → ℕ → Option ℕ
fetchint m sz addr =
    if leb sz addr || ltb sz ((addr + 4) % 2 ^ 32) then none else some (user_word m addr)

-- The loop of fetchstr over the `n` addresses that are left below sz.
unfoldable pub scan_nul : ℕ → Memory → ℕ → ℕ → Option ℕ
scan_nul zero m s len = none
scan_nul (suc n) m s len =
    let rest = scan_nul n m (s + 1) (len + 1) in if m s == 0 then some len else rest

-- The length of the string.
unfoldable pub fetchstr : Memory → ℕ → ℕ → Option ℕ
unfolding scan_nul
fetchstr m sz addr = if leb sz addr then none else scan_nul (sz - addr) m addr 0

unfoldable pub argint : Memory → ℕ → ℕ → ℕ → Option ℕ
argint m sz esp n = fetchint m sz ((esp + 4 + 4 * n) % 2 ^ 32)

-- The pointer. A negative size is a pattern from 2^31 on.
unfoldable pub argptr : Memory → ℕ → ℕ → ℕ → ℕ → Option ℕ
argptr m sz esp n size = elim (argint m sz esp n) [
  | none ↦ none
  | some i ↦ if leb (2 ^ 31) size || leb sz i || ltb sz ((i + size) % 2 ^ 32) then none else some i
]

-- The address and the length of the string.
unfoldable pub argstr : Memory → ℕ → ℕ → ℕ → Option (ℕ × ℕ)
argstr m sz esp n = elim (argint m sz esp n) [
  | none ↦ none
  | some addr ↦ elim (fetchstr m sz addr) [ none ↦ none | some len ↦ some (addr, len) ]
]

-- The table syscalls[], by the numbers of syscall.h.
pub data Call : Type 0 where
  sys_fork sys_exit sys_wait sys_pipe sys_read sys_kill sys_exec sys_fstat : Call
  sys_chdir sys_dup sys_getpid sys_sbrk sys_sleep sys_uptime sys_open : Call
  sys_write sys_mknod sys_unlink sys_link sys_mkdir sys_close : Call
  sys_getmemsize sys_getvpages sys_getptentries sys_setpriority sys_shutdown sys_getfsinfo : Call

unfoldable pub syscalls : List (Option Call)
syscalls =
    none
    ∷ some sys_fork
    ∷ some sys_exit
    ∷ some sys_wait
    ∷ some sys_pipe
    ∷ some sys_read
    ∷ some sys_kill
    ∷ some sys_exec
    ∷ some sys_fstat
    ∷ some sys_chdir
    ∷ some sys_dup
    ∷ some sys_getpid
    ∷ some sys_sbrk
    ∷ some sys_sleep
    ∷ some sys_uptime
    ∷ some sys_open
    ∷ some sys_write
    ∷ some sys_mknod
    ∷ some sys_unlink
    ∷ some sys_link
    ∷ some sys_mkdir
    ∷ some sys_close
    ∷ some sys_getmemsize
    ∷ some sys_getvpages
    ∷ some sys_getptentries
    ∷ some sys_setpriority
    ∷ some sys_shutdown
    ∷ some sys_getfsinfo
    ∷ []

-- The call that syscall() makes for the number in eax; `none` is the answer -1.
unfoldable pub dispatch : ℕ → Option Call
unfolding syscalls
dispatch num =
    if ltb 0 num && ltb num (2 ^ 31)
    then (elim (get_elem? syscalls num) [ none ↦ none | some c ↦ c ])
    else none

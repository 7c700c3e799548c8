-- ===== src/Sysproc.antt =====
-- sysproc.c: the process calls with their arguments, which lie in user memory `m` above `esp`.
pub mod Sleeping
mod Tests
use pcs_ii.Base.{
  ℕ, ◌+◌, ◌-◌, ◌*◌, ◌%◌, ◌^◌, Bool, true, false, List, [], ◌∷◌, Option, none, some, ltb, leb,
  if◌then◌else◌,
}
use pcs_ii.Base.Int.{ℤ, pos, negsuc}
use pcs_ii.Base.Outcome.{Outcome, ret, panic, ◌>>=◌}
use pcs_ii.Memory.{Memory}
use pcs_ii.Kalloc.{Kmem}
use pcs_ii.Vm.{Linker}
use pcs_ii.Proc.{Proc, kill, setpriority, growproc}
use pcs_ii.Syscall.{argint}

-- A 32-bit pattern as an int.
abbrev pub as_int : ℕ → ℤ
as_int w = if ltb w (2 ^ 31) then pos w else negsuc (2 ^ 32 - 1 - w)

-- `none` is the return of -1.
unfoldable pub sys_kill : Memory → ℕ → ℕ → List Proc → Option (List Proc)
unfolding argint kill
sys_kill m sz esp ps = elim (argint m sz esp 0) [
  | none ↦ none
  | some pid ↦ let (found, qs) = kill ps pid in if found then some qs else none
]

unfoldable pub sys_setpriority : Memory → ℕ → ℕ → List Proc → Option (List Proc)
unfolding argint setpriority
sys_setpriority m sz esp ps = elim (argint m sz esp 0) [
  | none ↦ none
  | some pid ↦ elim (argint m sz esp 1) [
    | none ↦ none
    | some priority ↦
        let (found, qs) = setpriority ps pid (as_int priority) in if found then some qs else none
  ]
]

-- The old size, or -1; growproc's other results as they are.
unfoldable pub sys_sbrk : Linker → Memory → ℕ → Kmem → Proc → Outcome (Option ℕ × Kmem × Proc)
unfolding argint growproc
sys_sbrk l m esp k p = elim (argint m p.sz esp 0) [
  | none ↦ ret (none, k, p)
  | some n ↦ growproc l k p (as_int n) >>= λ r. ret ((if r.0 then some p.sz else none), r.1, r.2)
]

-- How a sleep ends; `asleep` if not yet.
pub data SleepEnd : Type 0 where
  woken interrupted asleep : SleepEnd

-- The loop of sys_sleep: the count of ticks and the process's killed flag as it sees them each time
-- that it runs. Both sides of the test are unsigned.
unfoldable pub sleep_from : ℕ → ℕ → List (ℕ × Bool) → SleepEnd
sleep_from ticks0 n [] = asleep
sleep_from ticks0 n ((ticks, killed) ∷ later) =
    let rest = sleep_from ticks0 n later in
    if ltb ((ticks + 2 ^ 32 - ticks0) % 2 ^ 32) n
    then (if killed then interrupted else rest)
    else woken

-- `ticks0` is the count at the call.
unfoldable pub sys_sleep : Memory → ℕ → ℕ → ℕ → List (ℕ × Bool) → Option SleepEnd
unfolding argint sleep_from
sys_sleep m sz esp ticks0 later = elim (argint m sz esp 0) [
  | none ↦ none
  | some n ↦ some (sleep_from ticks0 n later)
]

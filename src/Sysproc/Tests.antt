-- ===== src/Sysproc/Tests.antt =====
-- A sleep of two ticks across the wrap-around of the count, and one that a kill ends.
use pcs_ii.Base.{
  ℕ, Bool, List, ◌≡◌, ◌-◌, ◌^◌, ◌==◌, if◌then◌else◌, map, refl, [], ◌∷◌, false, true, arith,
}
use pcs_ii.Memory.{Memory}
use pcs_ii.Syscall.{argint}
use pcs_ii.Sysproc.{sleep_from, woken, interrupted, sys_sleep}
use pcs_ii.Sysproc.Sleeping.{observed, Answers, sys_sleep-Sleeps}

across : sleep_from (2 ^ 32 - 1) 2 ((2 ^ 32 - 1, false) ∷ (0, false) ∷ (1, false) ∷ []) ≡ woken
unfolding sleep_from
across = refl

killed : sleep_from 5 2 ((5, false) ∷ (6, true) ∷ []) ≡ interrupted
unfolding sleep_from
killed = refl

-- The argument 2 above the stack pointer 100, and a process that runs at each tick.
abbrev two_ticks : Memory
two_ticks a = if a == 104 then 2 else 0

abbrev every_tick : List (ℕ × Bool)
every_tick = (0, false) ∷ (1, false) ∷ (2, false) ∷ []

sys_sleep-Sleeps_example :
    Answers
      (argint two_ticks 4096 100 0)
      every_tick
      (sys_sleep two_ticks 4096 100 (2 ^ 32 - 1) (map (observed (2 ^ 32 - 1)) every_tick))
sys_sleep-Sleeps_example =
    sys_sleep-Sleeps two_ticks 4096 100 (2 ^ 32 - 1) every_tick (omega arith)
      (omega arith, (omega arith, (omega arith, tt)))

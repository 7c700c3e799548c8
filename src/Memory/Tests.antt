-- ===== src/Memory/Tests.antt =====
-- Runs of the string routines on a memory whose bytes count down from 10.
use pcs_ii.Base.{◌≡◌, ◌-◌, refl, arith}
use pcs_ii.Memory.{Memory, memmove}
use pcs_ii.Memory.Move.{memmove-moved}
use pcs_ii.Memory.Strings.{EndsAt}

abbrev ramp : Memory
ramp a = 10 - a

memmove-moved_example : memmove ramp 3 2 4 5 ≡ 6
memmove-moved_example = memmove-moved ramp 3 2 4 5

ramp-EndsAt : EndsAt ramp 7 3
ramp-EndsAt = record { nul = refl; before = λ i h. omega arith }

-- ===== src/Spinlock/Tests.antt =====
-- Runs of the locks: nested sections of one CPU, and two CPUs that compete for a lock.
use pcs_ii.Base.{◌∷◌, [], refl, inl, false, true}
use pcs_ii.Spinlock.{Cpu}
use pcs_ii.Spinlock.Nesting.{IsMasked, leave, section_then, run, Ends, run-Ends, free}
use pcs_ii.Spinlock.Machine.{Machine, outside, interleave}
use pcs_ii.Spinlock.Safe.{IsSafe, StaysSafe}
use pcs_ii.Spinlock.Exclusion.{interleave-IsSafe}

abbrev idle : Cpu
idle = record { interrupts = true; ncli = 0; intena = false }

idle-IsMasked : IsMasked idle
idle-IsMasked = record { masked = inl refl }

run-Ends_example :
    Ends idle (run (section_then (section_then leave leave) (section_then leave leave)) idle)
run-Ends_example =
    run-Ends (section_then (section_then leave leave) (section_then leave leave)) idle idle-IsMasked

abbrev start : Machine
start = record {
  lock = free;
  cpus = λ i. record { interrupts = true; ncli = 0; intena = true };
  at = λ i. outside;
}

start-IsSafe : IsSafe start
start-IsSafe = record { fits = λ i. (refl, refl); exclusive = λ i j a b. cc }

interleave-IsSafe_example :
    StaysSafe (interleave (0 ∷ 1 ∷ 1 ∷ 0 ∷ 1 ∷ 1 ∷ 0 ∷ 1 ∷ 1 ∷ 0 ∷ []) start)
interleave-IsSafe_example =
    interleave-IsSafe (0 ∷ 1 ∷ 1 ∷ 0 ∷ 1 ∷ 1 ∷ 0 ∷ 1 ∷ 1 ∷ 0 ∷ []) start start-IsSafe

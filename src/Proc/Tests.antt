-- ===== src/Proc/Tests.antt =====
-- Runs of the process table: init in slot 0, two more processes, and a free slot.
use pcs_ii.Base.{
  modify, ℕ, zero, suc, ◌≡◌, ◌≢◌, ◌<◌, ◌⊎◌, refl, ap, ◌∷◌, [], List, Option, none, some, arith,
  false, true, get_elem?, inl, inr,
}
use pcs_ii.Base.Int.{ℤ, pos}
use pcs_ii.Base.Outcome.{ret}
use pcs_ii.Kalloc.{Kmem, kalloc}
use pcs_ii.Vm.{Linker}
use pcs_ii.Proc.{
  Proc, ProcState, unused, embryo, runnable, sleeping, null, at, Kernel, as_running, sched_pass,
  wait, allocproc, fill_slot, find_unused, kill, on_pid, in_sched, is_runnable,
}
use pcs_ii.Proc.Slots.{modify-cases}
use pcs_ii.Proc.Table.{IsValid, allocproc-IsValid}
use pcs_ii.Proc.Highest.{Chosen, LogAll}
use pcs_ii.Proc.Scheduler.{IsReady, sched_pass-Chosen, sched_pass_progress}
use pcs_ii.Proc.Handoff.{
  Handoff, Move, process_moves, waker_moves, others_wake, switched_out, outside, start, run,
}
use pcs_ii.Proc.Locks.{WillWake}
use pcs_ii.Proc.Waiting.{IsRunnable}
use pcs_ii.Proc.Wakeups.{run-Wakes}
use pcs_ii.Proc.Wait.{WaitEnds, wait-WaitEnds}
use pcs_ii.Proc.Signals.{allocproc-kill}

abbrev slot : ProcState → ℕ → Option ℕ → ℤ → Proc
slot s pid parent priority = record {
  sz = 4096;
  pgdir = 2148540416;
  kstack = 2148544512;
  state = s;
  pid = pid;
  parent = parent;
  context = in_sched;
  chan = null;
  killed = false;
  name = [];
  priority = priority;
}

abbrev table : List Proc
table =
    slot sleeping 1 none (pos 10)
    ∷ slot runnable 2 (some 0) (pos 10)
    ∷ slot runnable 3 (some 1) (pos 12)
    ∷ []

abbrev keeps_running : ℕ → List Proc → List Proc
keeps_running i ps = ps

sched_pass-Chosen_example : LogAll (λ s. Chosen s.0 s.1) (sched_pass keeps_running 3 0 table)
sched_pass-Chosen_example = sched_pass-Chosen keeps_running 3 0 table

keeps_running-IsReady :
    (i : ℕ) (qs : List Proc) → IsReady qs → IsReady (keeps_running i (modify qs i as_running))
keeps_running-IsReady i qs h j q e r = elim (modify-cases qs i j as_running q e) [
  | inl (ij, (p, a, b)) ↦ absurd (ground (arith, ap (λ x. x.state) b))
  | inr (ij, a) ↦ h j q a r
]

table-IsReady : IsReady table
table-IsReady zero q e r = absurd (ground arith)
table-IsReady (suc zero) q e r = ground arith
table-IsReady (suc (suc zero)) q e r = ground arith
table-IsReady (suc (suc (suc j))) q e r = absurd (ground arith)

sched_pass_progress_example :
    (r : List (ℕ × List Proc) × List Proc) × (sched_pass keeps_running 3 0 table ≡ ret r)
    × ((r.0 ≢ []) ⊎ ((j : ℕ) (q : Proc) → get_elem? table j ≡ some q → is_runnable q.state ≡ false))
sched_pass_progress_example =
    sched_pass_progress keeps_running table keeps_running-IsReady table-IsReady

-- The waker takes the lock as soon as sleep() has released it, and has to wait for ptable.lock until the
-- process is switched out; by then its wakeup finds the process asleep.
abbrev close_race : List Move
close_race =
    process_moves
    ∷ process_moves
    ∷ process_moves
    ∷ waker_moves 5
    ∷ process_moves
    ∷ waker_moves 5
    ∷ waker_moves 5
    ∷ waker_moves 5
    ∷ process_moves
    ∷ process_moves
    ∷ others_wake (at 80)
    ∷ waker_moves 5
    ∷ waker_moves 5
    ∷ waker_moves 5
    ∷ waker_moves 5
    ∷ []

raced : Handoff
raced = run close_race 1 (at 90) (start table false)

raced_out : (raced.at ≡ switched_out) × (raced.ready ≡ true) × (raced.wakers 5 ≡ outside)
unfolding raced run
raced_out = (refl, refl, refl)

run-Wakes_example :
    WillWake (run close_race 1 (at 90) (start table false)).wakers
    ⊎ IsRunnable (run close_race 1 (at 90) (start table false)).procs 1
unfolding raced
run-Wakes_example =
    run-Wakes 1 (at 90) table false (slot runnable 2 (some 0) (pos 10)) close_race refl raced_out.0
      raced_out.1

abbrev linker : Linker
linker = record {
  end = 2148532224;
  data_start = 2148528128;
  trapret = 2148556800;
  forkret = 2148556900;
}

abbrev memory : Kmem
memory = record { use_lock = true; freelist = 2148548608; mem = λ _. 0 }

abbrev busy : Kernel
busy = record { procs = table; nextpid = 4; initproc = some 0; kmem = memory }

wait-WaitEnds_example : WaitEnds linker busy 1 (wait linker busy 1)
wait-WaitEnds_example = wait-WaitEnds linker busy 1

abbrev free_slot : Proc
free_slot = slot unused 0 none (pos 10)

abbrev idle : Kernel
idle = record { procs = free_slot ∷ []; nextpid = 4; initproc = some 0; kmem = memory }

idle-IsValid : IsValid (free_slot ∷ []) 4
idle-IsValid = record { below = below; unique = unique }
  where
    below : (i : ℕ) (p : Proc) → get_elem? (free_slot ∷ []) i ≡ some p → p.pid < 4
    below zero p e = ground arith
    below (suc i) p e = absurd (ground arith)

    unique :
        (i j : ℕ) (p q : Proc)
        → get_elem? (free_slot ∷ []) i ≡ some p
        → get_elem? (free_slot ∷ []) j ≡ some q
        → p.state ≢ unused
        → q.state ≢ unused
        → i ≢ j
        → p.pid ≢ q.pid
    unique zero j p q e f u v n = absurd (u (ground arith))
    unique (suc i) j p q e f u v n = absurd (ground arith)

allocproc-IsValid_example :
    IsValid (allocproc linker idle).1.procs (allocproc linker idle).1.nextpid
allocproc-IsValid_example = allocproc-IsValid linker idle (omega arith) idle-IsValid

abbrev struck : Kernel
struck = record idle { procs = (kill (free_slot ∷ []) 0).1 }

allocates_struck : allocproc linker struck ≡ (some 0, (allocproc linker struck).1)
unfolding allocproc fill_slot find_unused kalloc kill on_pid
allocates_struck = refl

allocproc-kill_example :
    ((kill (free_slot ∷ []) 0).0 ≡ true)
    × ((q : Proc) × (get_elem? (allocproc linker struck).1.procs 0 ≡ some q)
        × (q.state ≡ embryo)
        × (q.killed ≡ true))
allocproc-kill_example =
    allocproc-kill linker idle (allocproc linker struck).1 0 0 free_slot refl refl
      (λ j q l. absurd (omega arith)) allocates_struck

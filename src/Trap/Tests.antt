-- ===== src/Trap/Tests.antt =====
-- A page fault of the one process, in user mode: the process is killed, and exits.
use pcs_ii.Base.{ℕ, ◌≡◌, refl, [], ◌∷◌, some, false}
use pcs_ii.Base.Int.{pos}
use pcs_ii.Base.Outcome.{Outcome, ret}
use pcs_ii.Proc.{Proc, running, null, in_sched}
use pcs_ii.Trap.{Handlers, World, Frame, exits, trap}

abbrev unchanged : World → Outcome World
unchanged w = ret w

abbrev gone : ℕ → World → Outcome World
gone cur w = ret (record w { procs = [] })

abbrev handlers : Handlers
handlers = record {
  syscall = λ cur w. ret w;
  ideintr = unchanged;
  kbdintr = unchanged;
  uartintr = unchanged;
  exit = gone;
  resumed = λ cur w. ret w;
  ticks_chan = null;
}

abbrev process : Proc
process = record {
  sz = 4096;
  pgdir = 2148540416;
  kstack = 2148544512;
  state = running;
  pid = 2;
  parent = some 0;
  context = in_sched;
  chan = null;
  killed = false;
  name = [];
  priority = pos 10;
}

abbrev world : World
world = record { procs = process ∷ []; ticks = 7 }

abbrev page_fault : Frame
page_fault = record { trapno = 14; cs = 27 }

faulting_exits :
    trap handlers 0 (some 0) page_fault world ≡ ret (exits, 0, record { procs = []; ticks = 7 })
unfolding trap
faulting_exits = refl

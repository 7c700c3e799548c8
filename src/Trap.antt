-- ===== src/Trap.antt =====
-- trap.c: what trap() does with an interrupt, an exception or a system call. The handlers that it
-- calls are other parts of the kernel: here each is given as what it makes of the state of the kernel,
-- or a panic. What trap() prints is left out.
pub mod Settling
pub mod Leaving
mod Tests
use pcs_ii.Base.{
  ℕ, ◌+◌, ◌%◌, ◌^◌, Bool, true, false, ◌&&◌, ◌||◌, List, Option, none, some, get_elem?, modify,
  ◌==◌, if◌then◌else◌,
}
use pcs_ii.Base.Outcome.{Outcome, ret, panic, ◌>>=◌}
use pcs_ii.Proc.{Proc, Chan, ProcState, running, is_killed, wakeup1, yield}

-- What the handlers change: the process table and the count of ticks, which another CPU may move on
-- while a handler waits.
pub record World : Type 0 where
  pub procs : List Proc
  pub ticks : ℕ

-- `resumed` is what the others do from the yield of a process until it runs again. `exit` leaves the
-- state in which the process is gone.
pub record Handlers : Type 0 where
  pub syscall : ℕ → World → Outcome World
  pub ideintr : World → Outcome World
  pub kbdintr : World → Outcome World
  pub uartintr : World → Outcome World
  pub exit : ℕ → World → Outcome World
  pub resumed : ℕ → World → Outcome World
  pub ticks_chan : Chan

-- The fields of the trap frame that trap() tests.
pub record Frame : Type 0 where
  pub trapno : ℕ
  pub cs : ℕ

-- How trap() ends: it returns to the code that was interrupted, the process exits, or the code
-- dereferences the null pointer that myproc() gives where there is no process.
pub data Ended : Type 0 where
  returns exits faults : Ended

-- (tf->cs&3) == DPL_USER
abbrev pub is_user : Frame → Bool
is_user f = f.cs % 4 == 3

-- The timer interrupt of CPU 0.
unfoldable pub tick : Handlers → World → World
unfolding wakeup1
tick h w = record { ticks = (w.ticks + 1) % 2 ^ 32; procs = wakeup1 w.procs h.ticks_chan }

abbrev pub as_killed : Proc → Proc
as_killed p = record p { killed = true }

-- The default case of the switch.
unfoldable pub misbehaved : Option ℕ → Frame → World → Outcome World
misbehaved none f w = panic
misbehaved (some cur) f w =
    if f.cs % 4 == 0 then panic else ret (record w { procs = modify w.procs cur as_killed })

-- A handler, and the calls of lapiceoi after it.
abbrev pub then_acks : ℕ → Outcome World → Outcome (ℕ × World)
then_acks n o = o >>= λ w. ret (n, w)

-- The switch, with the number of calls of lapiceoi: T_IRQ0 is 32.
unfoldable pub dispatch_trap : Handlers → ℕ → Option ℕ → Frame → World → Outcome (ℕ × World)
unfolding tick misbehaved
dispatch_trap h cpu cur f w =
    if f.trapno == 32
    then ret (1, (if cpu == 0 then tick h w else w))
    else if f.trapno == 46
    then then_acks 1 (h.ideintr w)
    else if f.trapno == 47
    then ret (0, w)
    else if f.trapno == 33
    then then_acks 1 (h.kbdintr w)
    else if f.trapno == 36
    then then_acks 1 (h.uartintr w)
    else if f.trapno == 39 || f.trapno == 63
    then ret (1, w)
    else then_acks 0 (misbehaved cur f w)

abbrev pub is_running : ProcState → Bool
is_running running = true
is_running _ = false

abbrev pub runs_now : ℕ → World → Bool
runs_now cur w = elim (get_elem? w.procs cur) [ none ↦ false | some p ↦ is_running p.state ]

-- The yield on a clock tick.
unfoldable pub give_up : Handlers → ℕ → Frame → World → Outcome World
unfolding yield
give_up h cur f w =
    if runs_now cur w && f.trapno == 32
    then h.resumed cur (record w { procs = yield w.procs cur })
    else ret w

unfoldable pub leave_by_exit : Handlers → ℕ → World → Outcome (Ended × World)
leave_by_exit h cur w = h.exit cur w >>= λ w'. ret (exits, w')

-- trap() past the switch.
unfoldable pub finish_trap : Handlers → Option ℕ → Frame → World → Outcome (Ended × World)
unfolding give_up leave_by_exit
finish_trap h none f w = ret (returns, w)
finish_trap h (some cur) f w =
    if is_killed w.procs cur && is_user f
    then leave_by_exit h cur w
    else (give_up h cur f w >>= λ w'.
        if is_killed w'.procs cur && is_user f then leave_by_exit h cur w' else ret (returns, w'))

-- T_SYSCALL: the process is looked at before and after syscall().
unfoldable pub trap_syscall : Handlers → Option ℕ → World → Outcome (Ended × World)
unfolding leave_by_exit
trap_syscall h none w = ret (faults, w)
trap_syscall h (some cur) w =
    if is_killed w.procs cur
    then leave_by_exit h cur w
    else (h.syscall cur w >>= λ w'.
        if is_killed w'.procs cur then leave_by_exit h cur w' else ret (returns, w'))

-- How trap() ends, with the number of calls of lapiceoi.
unfoldable pub trap : Handlers → ℕ → Option ℕ → Frame → World → Outcome (Ended × ℕ × World)
unfolding trap_syscall dispatch_trap finish_trap
trap h cpu cur f w =
    if f.trapno == 64
    then (trap_syscall h cur w >>= λ r. ret (r.0, 0, r.1))
    else (dispatch_trap h cpu cur f w >>= λ d. finish_trap h cur f d.1 >>= λ r. ret (r.0, d.0, r.1))

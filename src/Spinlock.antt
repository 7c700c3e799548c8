-- ===== src/Spinlock.antt =====
-- spinlock.c and sleeplock.c: the locks, and the nesting of disabled interrupts that they stand on.
-- Each routine is the run of one CPU, whose interrupt flag (FL_IF of eflags) is part of its state.
-- The names and call stacks that locks keep for debugging are left out. `panic` is a call of panic().
pub mod Nesting
pub mod Machine
pub mod Safe
pub mod Exclusion
mod Tests
use pcs_ii.Base.{ℕ, ◌+◌, ◌-◌, Bool, true, false, not, ◌&&◌, Option, none, some, ◌==◌, if◌then◌else◌}
use pcs_ii.Base.Outcome.{Outcome, ret, panic, ◌>>=◌}

-- The fields of struct cpu that the locks use. ncli never is negative: popcli panics before that.
pub record Cpu : Type 0 where
  pub interrupts : Bool
  pub ncli : ℕ
  pub intena : Bool

pub record Spinlock : Type 0 where
  pub locked : Bool
  pub cpu : Option ℕ

unfoldable pub initlock : Spinlock
initlock = record { locked = false; cpu = none }

unfoldable pub pushcli : Cpu → Cpu
pushcli c = record c {
  interrupts = false;
  intena = if c.ncli == 0 then c.interrupts else c.intena;
  ncli = c.ncli + 1;
}

unfoldable pub popcli : Cpu → Outcome Cpu
popcli c =
    if c.interrupts
    then panic
    else if c.ncli == 0
    then panic
    else ret (record c { ncli = c.ncli - 1; interrupts = c.ncli - 1 == 0 && c.intena })

abbrev pub is_cpu : Option ℕ → ℕ → Bool
is_cpu none me = false
is_cpu (some i) me = i == me

-- Does the CPU with number `me` hold the lock?
unfoldable pub holding : ℕ → Cpu → Spinlock → Outcome (Bool × Cpu)
unfolding pushcli popcli
holding me c lk = popcli (pushcli c) >>= λ c'. ret (lk.locked && is_cpu lk.cpu me, c')

-- What one round of acquire comes to: the lock, or `none` where xchg finds it taken and the CPU spins.
unfoldable pub acquire : ℕ → Cpu → Spinlock → Outcome (Cpu × Option Spinlock)
unfolding pushcli popcli holding
acquire me c lk = holding me (pushcli c) lk >>= λ r.
    if r.0
    then panic
    else ret (r.1, if lk.locked then none else some (record { locked = true; cpu = some me }))

unfoldable pub release : ℕ → Cpu → Spinlock → Outcome (Cpu × Spinlock)
unfolding pushcli popcli holding
release me c lk = holding me c lk >>= λ r.
    if not r.0 then panic else popcli r.1 >>= λ c'. ret (c', record { locked = false; cpu = none })

-- sleeplock.c. What lk->lk brackets is one step.
pub record Sleeplock : Type 0 where
  pub locked : Bool
  pub pid : ℕ

-- The lock taken, or `none` where the process goes to sleep on it.
unfoldable pub acquiresleep : ℕ → Sleeplock → Option Sleeplock
acquiresleep pid lk = if lk.locked then none else some (record { locked = true; pid = pid })

-- The wakeup of the processes that sleep on the lock is the caller's step.
unfoldable pub releasesleep : Sleeplock → Sleeplock
releasesleep lk = record { locked = false; pid = 0 }

unfoldable pub holdingsleep : ℕ → Sleeplock → Bool
holdingsleep pid lk = lk.locked && lk.pid == pid

-- ===== src/Spinlock/Machine.antt =====
-- Several CPUs that acquire and release one spin lock, in any interleaving. Each phase is one step
-- that the hardware makes at once: xchg, and the stores to lk->cpu and lk->locked.
use pcs_ii.Base.{ℕ, true, false, not, List, [], ◌∷◌, none, some, ◌==◌, if◌then◌else◌}
use pcs_ii.Base.Outcome.{Outcome, ret, panic, ◌>>=◌}
use pcs_ii.Spinlock.{Cpu, Spinlock, pushcli, popcli, holding}

-- Where a CPU is: outside; in the loop of acquire; past the xchg that took the lock; past acquire;
-- in release, after lk->cpu = 0; and after lk->locked = 0.
pub data Phase : Type 0 where
  outside spinning taken inside leaving freed : Phase

pub record Machine : Type 0 where
  pub lock : Spinlock
  pub cpus : ℕ → Cpu
  pub at : ℕ → Phase

abbrev pub put {ℓ} : {A : Type ℓ} → (ℕ → A) → ℕ → A → ℕ → A
put f i a j = if i == j then a else f j

abbrev pub moved : Machine → ℕ → Spinlock → Cpu → Phase → Machine
moved m me lk c p = record { lock = lk; cpus = put m.cpus me c; at = put m.at me p }

-- One step of the CPU `me` through acquire and release.
unfoldable pub step_from : Phase → Machine → ℕ → Outcome Machine
unfolding holding pushcli popcli
step_from outside m me = holding me (pushcli (m.cpus me)) m.lock >>= λ r.
    if r.0 then panic else ret (moved m me m.lock r.1 spinning)
step_from spinning m me = ret (
    moved m me (record (m.lock) { locked = true }) (m.cpus me)
      (if (m.lock).locked then spinning else taken))
step_from taken m me = ret (moved m me (record (m.lock) { cpu = some me }) (m.cpus me) inside)
step_from inside m me = holding me (m.cpus me) m.lock >>= λ r.
    if not r.0 then panic else ret (moved m me (record (m.lock) { cpu = none }) r.1 leaving)
step_from leaving m me = ret (moved m me (record (m.lock) { locked = false }) (m.cpus me) freed)
step_from freed m me = popcli (m.cpus me) >>= λ c. ret (moved m me m.lock c outside)

-- A run by a schedule, the list of the CPUs that make a step.
unfoldable pub interleave : List ℕ → Machine → Outcome Machine
unfolding step_from
interleave [] m = ret m
interleave (me ∷ rest) m = step_from (m.at me) m me >>= interleave rest

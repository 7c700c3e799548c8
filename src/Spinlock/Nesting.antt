-- ===== src/Spinlock/Nesting.antt =====
-- Interrupts come back exactly when the outermost critical section ends.
use pcs_ii.Base.{
  ℕ, ◌-◌, ◌≡◌, refl, ap, ◌∙◌, sym, Bool, true, false, ◌&&◌, inr, ◌⊎◌, Option, none, some, ◌==◌,
  ==-refl, subst, if◌then◌else◌, arith,
}
use pcs_ii.Base.Outcome.{Outcome, ret, panic, ◌>>=◌}
use pcs_ii.Spinlock.{Cpu, Spinlock, pushcli, popcli, holding, acquire, release, is_cpu}

-- Inside a critical section interrupts are off.
pub record IsMasked (c : Cpu) : Type 0 where
  pub masked : (c.ncli ≡ 0) ⊎ (c.interrupts ≡ false)

-- Critical sections, one inside another and one after another.
pub data Nest : Type 0 where
  leave : Nest
  section_then : Nest → Nest → Nest

abbrev pub run : Nest → Cpu → Outcome Cpu
run leave c = ret c
run (section_then a b) c = run a (pushcli c) >>= λ c1. popcli c1 >>= λ c2. run b c2

-- The same nesting, the same interrupt flag, and inside a section the same flag to restore.
pub record Restored (c c' : Cpu) : Type 0 where
  pub same_ncli : c'.ncli ≡ c.ncli
  pub same_interrupts : c'.interrupts ≡ c.interrupts
  pub same_intena : (c.ncli ≡ 0) ⊎ (c'.intena ≡ c.intena)

pub record Ends (c : Cpu) (o : Outcome Cpu) : Type 0 where
  pub cpu : Cpu
  pub returns : o ≡ ret cpu
  pub restored : Restored c cpu

popcli-pushcli : (c c1 : Cpu) → IsMasked c → Restored (pushcli c) c1 → Ends c (popcli c1)
unfolding popcli pushcli
popcli-pushcli c c1 m r = record {
  cpu = record c1 { ncli = c1.ncli - 1; interrupts = c1.ncli - 1 == 0 && c1.intena };
  returns = ground (arith, r.same_interrupts, r.same_ncli);
  restored = record {
    same_ncli = omega (arith, r.same_ncli);
    same_interrupts = ground (arith, m.masked, r.same_ncli, r.same_intena);
    same_intena = ground (arith, r.same_ncli, r.same_intena);
  };
}

pushcli-IsMasked : (c : Cpu) → IsMasked (pushcli c)
unfolding pushcli
pushcli-IsMasked c = record { masked = inr refl }

-- On a CPU that has interrupts off if it is inside a critical section, well nested critical
-- sections never panic, whatever their nesting, and leave the CPU with the depth and the
-- interrupt flag that it had: interrupts are back on after the outermost, if they were on.
pub run-Ends : (n : Nest) (c : Cpu) → IsMasked c → Ends c (run n c)
run-Ends leave c m = record {
  cpu = c;
  returns = refl;
  restored = record { same_ncli = refl; same_interrupts = refl; same_intena = inr refl };
}
run-Ends (section_then a b) c m =
    let x = run-Ends a (pushcli c) (pushcli-IsMasked c) in
    let y = popcli-pushcli c x.cpu m x.restored in
    let z = run-Ends b y.cpu (record {
      masked = ground (arith, m.masked, y.restored.same_ncli, y.restored.same_interrupts);
    }) in
    record {
      cpu = z.cpu;
      returns = rw (x.returns, y.returns) z.returns;
      restored = record {
        same_ncli = z.restored.same_ncli ∙ y.restored.same_ncli;
        same_interrupts = z.restored.same_interrupts ∙ y.restored.same_interrupts;
        same_intena =
            ground (arith, y.restored.same_ncli, y.restored.same_intena, z.restored.same_intena);
      };
    }

-- What holding answers, and the CPU after it.
holding-eq :
    (me : ℕ) (c : Cpu) (lk : Spinlock)
    → IsMasked c
    → (c' : Cpu) × (holding me c lk ≡ ret (lk.locked && is_cpu lk.cpu me, c')) × Restored c c'
unfolding holding
holding-eq me c lk m =
    let x =
      popcli-pushcli c (pushcli c) m
        (record { same_ncli = refl; same_interrupts = refl; same_intena = inr refl }) in
    (x.cpu, rw x.returns refl, x.restored)

abbrev pub free : Spinlock
free = record { locked = false; cpu = none }

abbrev pub taken : ℕ → Spinlock
taken me = record { locked = true; cpu = some me }

acquired-eq :
    (held b : Bool) (d c1 : Cpu) (lk lk' : Spinlock)
    → ◌≡◌ {A = Outcome (Cpu × Option Spinlock)}
        (if held then panic else ret (d, if b then none else some lk))
        (ret (c1, some lk'))
    → (d ≡ c1) × (lk ≡ lk')
acquired-eq true b d c1 lk lk' h = absurd (ground (arith, h))
acquired-eq false true d c1 lk lk' h = absurd (ground (arith, h))
acquired-eq false false d c1 lk lk' h = (cc, cc)

Restored-trans : (a b c : Cpu) → Restored a b → Restored b c → Restored a c
Restored-trans a b c r s = record {
  same_ncli = s.same_ncli ∙ r.same_ncli;
  same_interrupts = s.same_interrupts ∙ r.same_interrupts;
  same_intena = ground (arith, r.same_ncli, r.same_intena, s.same_intena);
}

-- What release does with a lock that this CPU took.
release-taken :
    (me : ℕ) (c c1 : Cpu)
    → IsMasked c
    → Restored (pushcli c) c1
    → (c' : Cpu) × (release me c1 (taken me) ≡ ret (c', free)) × Restored c c'
unfolding release
release-taken me c c1 m r =
    let (d, e, s) = holding-eq me c1 (taken me) (record { masked = inr r.same_interrupts }) in
    let y = popcli-pushcli c d m (Restored-trans (pushcli c) c1 d r s) in
    (y.cpu, rw e (rw (==-refl me) (rw y.returns refl)), y.restored)

-- A CPU that takes a lock has its interrupts off, and its release of the lock does not panic, frees
-- the lock and gives the CPU back the depth and the interrupt flag from before acquire.
pub release-acquire :
    (me : ℕ) (c c1 : Cpu) (lk lk' : Spinlock)
    → IsMasked c
    → acquire me c lk ≡ ret (c1, some lk')
    → (c1.interrupts ≡ false) × ((c' : Cpu) × (release me c1 lk' ≡ ret (c', free)) × Restored c c')
unfolding acquire
release-acquire me c c1 lk lk' m h =
    let (d, e, r) = holding-eq me (pushcli c) lk (pushcli-IsMasked c) in
    let (same, kept) =
      acquired-eq (lk.locked && is_cpu lk.cpu me) lk.locked d c1 (taken me) lk' (rw e at h) in
    let (c', f, s) = release-taken me c c1 m (subst (Restored (pushcli c)) same r) in
    (ap (λ (x : Cpu). x.interrupts) (sym same) ∙ r.same_interrupts, (c', rw (sym kept) f, s))

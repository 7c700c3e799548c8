-- ===== src/Proc/Highest.antt =====
-- The process that a round of the scheduler chooses has the highest priority.
use pcs_ii.Base.{
  modify, ℕ, zero, suc, ◌+◌, ◌≡◌, refl, Bool, true, false, ◌||◌, none, some, arith, ◌==◌,
  if◌then◌else◌, List, [], ◌∷◌, get_elem?, All,
}
use pcs_ii.Base.Int.{ℤ, ◌≤ℤ◌}
use pcs_ii.Base.Outcome.{Outcome, ret, panic, ◌>>=◌}
use pcs_ii.Proc.{Proc, is_runnable, as_running, exists_higher, is_chosen, sched_pass}

-- No RUNNABLE process of the table has a higher priority.
abbrev pub IsHighest : List Proc → ℤ → Type 0
IsHighest ps priority =
    (j : ℕ) (q : Proc)
    → get_elem? ps j ≡ some q
    → is_runnable q.state ≡ true
    → q.priority ≤ℤ priority

exists_higher-false :
    (ps : List Proc) (priority : ℤ) → exists_higher ps priority ≡ false → IsHighest ps priority
unfolding exists_higher
exists_higher-false [] priority h j q e r = cc
exists_higher-false (p ∷ ps) priority h zero q e r = ground arith
exists_higher-false (p ∷ ps) priority h (suc j) q e r =
    exists_higher-false ps priority (ground arith) j q e r

pub exists_higher_highest :
    (ps : List Proc) (priority : ℤ) → IsHighest ps priority → exists_higher ps priority ≡ false
unfolding exists_higher
exists_higher_highest [] priority h = refl
exists_higher_highest (p ∷ ps) priority h =
    ground (arith, h 0 p, exists_higher_highest ps priority (λ j q e r. h (suc j) q e r))

-- Why the scheduler switched to slot i by the table `t`.
pub record Chosen (i : ℕ) (t : List Proc) : Type 0 where
  pub proc : Proc
  pub in_slot : get_elem? t i ≡ some proc
  pub is_ready : is_runnable proc.state ≡ true
  pub highest : IsHighest t proc.priority

pub is_chosen-Chosen :
    (i : ℕ) (t : List Proc) (p : Proc) → get_elem? t i ≡ some p → is_chosen t p ≡ true → Chosen i t
unfolding is_chosen
is_chosen-Chosen i t p e c = record {
  proc = p;
  in_slot = e;
  is_ready = ground arith;
  highest = exists_higher-false t p.priority (ground arith);
}

module _ (run : ℕ → List Proc → List Proc) (n i : ℕ) (ps : List Proc) where
  pub sched_pass_off :
      get_elem? ps i ≡ none → sched_pass run (suc n) i ps ≡ sched_pass run n (i + 1) ps
  unfolding sched_pass
  sched_pass_off e = rw (e, sched_pass)

  pub sched_pass_skip :
      (p : Proc)
      → get_elem? ps i ≡ some p
      → is_chosen ps p ≡ false
      → sched_pass run (suc n) i ps ≡ sched_pass run n (i + 1) ps
  unfolding sched_pass
  sched_pass_skip p e c = rw (e, sched_pass) (rw c refl)

  pub sched_pass_go :
      (p : Proc)
      → get_elem? ps i ≡ some p
      → is_chosen ps p ≡ true
      → sched_pass run (suc n) i ps ≡ (
          if p.kstack == 0 || p.pgdir == 0
          then panic
          else (sched_pass run n (i + 1) (run i (modify ps i as_running)) >>= λ r.
              ret ((i, ps) ∷ r.0, r.1)))
  unfolding sched_pass
  sched_pass_go p e c = rw (e, sched_pass) (rw c refl)

-- The log of a pass that returns.
abbrev pub LogAll : (ℕ × List Proc → Type 0) → Outcome (List (ℕ × List Proc) × List Proc) → Type 0
LogAll P panic = Unit
LogAll P (ret r) = All P r.0

pub LogAll-cons :
    (P : ℕ × List Proc → Type 0) (s : ℕ × List Proc)
    (o : Outcome (List (ℕ × List Proc) × List Proc)) (b : Bool)
    → P s
    → LogAll P o
    → LogAll P (if b then panic else (o >>= λ r. ret (s ∷ r.0, r.1)))
LogAll-cons P s o true h a = tt
LogAll-cons P s panic false h a = tt
LogAll-cons P s (ret r) false h a = (h, a)

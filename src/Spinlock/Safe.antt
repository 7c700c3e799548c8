-- ===== src/Spinlock/Safe.antt =====
-- The states of several CPUs in which a lock has one holder at most.
use pcs_ii.Base.{
  ℕ, ◌≡◌, ◌≢◌, refl, ◌∙◌, sym, subst, Bool, true, false, Bool-cases, inl, inr, ◌==◌, ==_iff, arith,
}
use pcs_ii.Base.Outcome.{Outcome, ret, panic}
use pcs_ii.Spinlock.{Cpu, Spinlock, is_cpu}
use pcs_ii.Spinlock.Machine.{
  Phase, outside, spinning, taken, inside, leaving, freed, Machine, put, moved,
}

-- Between the xchg that takes the lock and the store that frees it.
abbrev pub holds : Phase → Bool
holds taken = true
holds inside = true
holds leaving = true
holds _ = false

-- Interrupts are off, in one critical section.
abbrev pub IsOff : Cpu → Type 0
IsOff c = (c.ncli ≡ 1) × (c.interrupts ≡ false)

abbrev pub Fits : Phase → Cpu → Spinlock → ℕ → Type 0
Fits outside c lk i = (c.ncli ≡ 0) × (is_cpu lk.cpu i ≡ false)
Fits spinning c lk i = IsOff c × (is_cpu lk.cpu i ≡ false)
Fits taken c lk i = IsOff c × (lk.locked ≡ true) × (is_cpu lk.cpu i ≡ false)
Fits inside c lk i = IsOff c × (lk.locked ≡ true) × (is_cpu lk.cpu i ≡ true)
Fits leaving c lk i = IsOff c × (lk.locked ≡ true) × (is_cpu lk.cpu i ≡ false)
Fits freed c lk i = IsOff c × (is_cpu lk.cpu i ≡ false)

-- Every CPU agrees with the lock, and two that hold it are one.
pub record IsSafe (m : Machine) : Type 0 where
  pub fits : (i : ℕ) → Fits (m.at i) (m.cpus i) m.lock i
  pub exclusive : (i j : ℕ) → holds (m.at i) ≡ true → holds (m.at j) ≡ true → i ≡ j

abbrev pub StaysSafe : Outcome Machine → Type 0
StaysSafe panic = ⊥
StaysSafe (ret m) = IsSafe m

-- A CPU that does not hold the lock takes no notice of a change of it that is not to lk->cpu = itself.
pub Fits-other :
    (p : Phase) (c : Cpu) (lk lk' : Spinlock) (i : ℕ)
    → holds p ≡ false
    → is_cpu lk'.cpu i ≡ false
    → Fits p c lk i
    → Fits p c lk' i
Fits-other outside c lk lk' i h n f = (f.0, n)
Fits-other spinning c lk lk' i h n f = (f.0, n)
Fits-other taken c lk lk' i h n f = cc
Fits-other inside c lk lk' i h n f = cc
Fits-other leaving c lk lk' i h n f = cc
Fits-other freed c lk lk' i h n f = (f.0, n)

pub clash : (b : Bool) → b ≡ true → b ≡ false → ⊥
clash true h k = cc
clash false h k = cc

holds_self :
    (at : ℕ → Phase) (me i : ℕ) (p : Phase) → (me == i) ≡ true → holds (put at me p i) ≡ holds p
holds_self at me i p e = rw e refl

holds_other :
    (at : ℕ → Phase) (me i : ℕ) (p : Phase)
    → (me == i) ≡ false
    → holds (put at me p i) ≡ holds (at i)
holds_other at me i p e = rw e refl

ne_of_test : (a b : ℕ) → (a == b) ≡ false → a ≢ b
ne_of_test a b h = ground arith

-- The lock's state after a step, seen from the CPUs that made no step.
pub moved-IsSafe :
    (m : Machine) (me : ℕ) (lk : Spinlock) (c : Cpu) (p : Phase)
    → IsSafe m
    → Fits p c lk me
    → ((j : ℕ) → me ≢ j → Fits (m.at j) (m.cpus j) lk j)
    → (holds p ≡ true → (j : ℕ) → me ≢ j → holds (m.at j) ≡ false)
    → IsSafe (moved m me lk c p)
moved-IsSafe m me lk c p s f others alone = record {
  fits = λ i. elim (Bool-cases (me == i)) [
    | inl e ↦ rw e (subst (Fits p c lk) ((==_iff me i).0 e) f)
    | inr e ↦ rw e (others i (ground (arith, e)))
  ];
  exclusive = λ i j a b. elim (Bool-cases (me == i)) [
    | inl e ↦ elim (Bool-cases (me == j)) [
      | inl d ↦ sym ((==_iff me i).0 e) ∙ (==_iff me j).0 d
      | inr d ↦ absurd (
          clash (holds (m.at j)) (sym (holds_other m.at me j p d) ∙ b)
            (alone (sym (holds_self m.at me i p e) ∙ a) j (ne_of_test me j d)))
    ]
    | inr e ↦ elim (Bool-cases (me == j)) [
      | inl d ↦ absurd (
          clash (holds (m.at i)) (sym (holds_other m.at me i p e) ∙ a)
            (alone (sym (holds_self m.at me j p d) ∙ b) i (ne_of_test me i e)))
      | inr d ↦
          s.exclusive i j (sym (holds_other m.at me i p e) ∙ a)
            (sym (holds_other m.at me j p d) ∙ b)
    ]
  ];
}

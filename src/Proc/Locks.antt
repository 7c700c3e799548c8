-- ===== src/Proc/Locks.antt =====
-- Who holds the two locks of sleep and wakeup, by phase, and how that changes with a step.
use pcs_ii.Base.{
  ℕ, ◌≡◌, refl, ap, ◌∙◌, sym, Bool, true, false, Bool-cases, inl, inr, arith, ◌==◌, ==_iff, ==-refl,
}
use pcs_ii.Proc.Handoff.{
  Holder, nobody, sleeper, waker, Phase, tests, wants_table, has_both, has_table, marked, resumed,
  WakerPhase, outside, has_stored, has_table_too, has_woken, is_free, put,
}

abbrev pub holds_lk : Phase → Bool
holds_lk tests = true
holds_lk wants_table = true
holds_lk has_both = true
holds_lk _ = false

abbrev pub holds_table : Phase → Bool
holds_table has_both = true
holds_table has_table = true
holds_table marked = true
holds_table resumed = true
holds_table _ = false

abbrev pub waker_holds_lk : WakerPhase → Bool
waker_holds_lk outside = false
waker_holds_lk _ = true

abbrev pub waker_holds_table : WakerPhase → Bool
waker_holds_table has_table_too = true
waker_holds_table has_woken = true
waker_holds_table _ = false

-- The waker has set the condition and has still to make its call of wakeup1.
abbrev pub will_wake : WakerPhase → Bool
will_wake has_stored = true
will_wake has_table_too = true
will_wake _ = false

abbrev pub WillWake : (ℕ → WakerPhase) → Type 0
WillWake ws = (i : ℕ) × (will_wake (ws i) ≡ true)

pub free_nobody : (h : Holder) → is_free h ≡ true → h ≡ nobody
free_nobody nobody e = refl
free_nobody sleeper e = cc
free_nobody (waker i) e = cc

-- A lock that a waker holds is not the process's.
pub not_mine :
    (holds : Phase → Bool) (a : Phase) (h : Holder) (i : ℕ)
    → h ≡ waker i
    → (holds a ≡ true → h ≡ sleeper)
    → holds a ≡ false
not_mine holds a h i e mine = elim (Bool-cases (holds a)) [
  | inl x ↦ absurd (ground (arith, e, mine x))
  | inr x ↦ x
]

module _ (P : WakerPhase → Bool) where
  -- Waker `i` moves to the phase `x`: the lock stays where it is, waker `i` takes it, or drops it.
  pub theirs-put :
      (h : Holder) (ws : ℕ → WakerPhase) (i : ℕ) (x : WakerPhase)
      → ((j : ℕ) → P (ws j) ≡ true → h ≡ waker j)
      → (P x ≡ true → h ≡ waker i)
      → (j : ℕ) → P (put ws i x j) ≡ true
      → h ≡ waker j
  theirs-put h ws i x old new j q = elim (Bool-cases (i == j)) [
    | inl y ↦ new (sym (rw y refl) ∙ q) ∙ ap waker ((==_iff i j).0 y)
    | inr y ↦ old j (sym (rw y refl) ∙ q)
  ]

  pub theirs-take :
      (ws : ℕ → WakerPhase) (i : ℕ) (x : WakerPhase)
      → ((j : ℕ) → P (ws j) ≡ true → ⊥)
      → (j : ℕ) → P (put ws i x j) ≡ true
      → waker i ≡ waker j
  theirs-take ws i x old j q = elim (Bool-cases (i == j)) [
    | inl y ↦ ap waker ((==_iff i j).0 y)
    | inr y ↦ absurd (old j (sym (rw y refl) ∙ q))
  ]

  pub theirs-drop :
      (ws : ℕ → WakerPhase) (i : ℕ) (x : WakerPhase)
      → ((j : ℕ) → P (ws j) ≡ true → waker i ≡ waker j)
      → P x ≡ false
      → (j : ℕ) → P (put ws i x j) ≡ true
      → nobody ≡ waker j
  theirs-drop ws i x old z j q = elim (Bool-cases (i == j)) [
    | inl y ↦ let q' : P x ≡ true = sym (rw y refl) ∙ q in absurd (ground (arith, z, q'))
    | inr y ↦ let q' : P (ws j) ≡ true = sym (rw y refl) ∙ q in absurd (ground (arith, y, old j q'))
  ]

pub WillWake-put_new :
    (ws : ℕ → WakerPhase) (i : ℕ) (x : WakerPhase) → will_wake x ≡ true → WillWake (put ws i x)
WillWake-put_new ws i x h = (i, rw (==-refl i) h)

pub WillWake-put :
    (ws : ℕ → WakerPhase) (i : ℕ) (x : WakerPhase)
    → will_wake (ws i) ≡ false
    → WillWake ws
    → WillWake (put ws i x)
WillWake-put ws i x h (j, k) = elim (Bool-cases (i == j)) [
  | inl y ↦
      let k' : will_wake (ws i) ≡ true = ap (λ n. will_wake (ws n)) ((==_iff i j).0 y) ∙ k in
      absurd (ground (arith, h, k'))
  | inr y ↦ (j, rw y k)
]

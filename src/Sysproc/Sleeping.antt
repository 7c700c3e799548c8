-- ===== src/Sysproc/Sleeping.antt =====
-- The loop of sys_sleep, with the count of ticks that wraps around.
use pcs_ii.Base.{
  ℕ, zero, suc, ◌+◌, ◌-◌, ◌%◌, ◌^◌, ◌≤◌, ◌<◌, ◌≡◌, refl, Bool, true, false, Bool-cases, inl, inr,
  List, [], ◌∷◌, Option, none, some, map, get_elem?, ltb, subst, ltb→lt, All, arith,
}
use pcs_ii.Memory.{Memory}
use pcs_ii.Syscall.{argint}
use pcs_ii.Sysproc.{SleepEnd, woken, interrupted, asleep, sleep_from, sys_sleep}

-- A process that runs again when `e` ticks have passed since the call sees this count.
abbrev pub observed : ℕ → ℕ × Bool → ℕ × Bool
observed ticks0 (e, killed) = ((ticks0 + e) % 2 ^ 32, killed)

-- It sleeps on: the time is not over, and it is not killed.
abbrev pub SleepsOn : ℕ → ℕ × Bool → Type 0
SleepsOn n (e, killed) = (e < n) × (killed ≡ false)

abbrev pub AllBefore : ℕ → List (ℕ × Bool) → ℕ → Type 0
AllBefore n seen i = (j : ℕ) (y : ℕ × Bool) → j < i → get_elem? seen j ≡ some y → SleepsOn n y

-- How a sleep of `n` ticks ends, for the ticks that have passed each time that the process runs.
abbrev pub Sleeps : ℕ → List (ℕ × Bool) → SleepEnd → Type 0
Sleeps n seen woken =
    (i : ℕ) × (x : ℕ × Bool) × (get_elem? seen i ≡ some x) × (n ≤ x.0) × AllBefore n seen i
Sleeps n seen interrupted =
    (i : ℕ) × (x : ℕ × Bool) × (get_elem? seen i ≡ some x)
    × (x.0 < n)
    × (x.1 ≡ true)
    × AllBefore n seen i
Sleeps n seen asleep = (j : ℕ) (y : ℕ × Bool) → get_elem? seen j ≡ some y → SleepsOn n y

elapsed :
    (ticks0 e : ℕ)
    → ticks0 < 2 ^ 32
    → e < 2 ^ 32
    → ((ticks0 + e) % 2 ^ 32 + 2 ^ 32 - ticks0) % 2 ^ 32 ≡ e
elapsed ticks0 e h l = omega arith

AllBefore-cons :
    (n i : ℕ) (x : ℕ × Bool) (seen : List (ℕ × Bool))
    → SleepsOn n x
    → AllBefore n seen i
    → AllBefore n (x ∷ seen) (suc i)
AllBefore-cons n i x seen s a zero y l e = subst (SleepsOn n) (ground arith) s
AllBefore-cons n i x seen s a (suc j) y l e = a j y (omega arith) e

Sleeps-cons :
    (n : ℕ) (x : ℕ × Bool) (seen : List (ℕ × Bool)) (r : SleepEnd)
    → SleepsOn n x
    → Sleeps n seen r
    → Sleeps n (x ∷ seen) r
Sleeps-cons n x seen woken s (i, y, e, l, a) = (suc i, y, e, l, AllBefore-cons n i x seen s a)
Sleeps-cons n x seen interrupted s (i, y, e, l, k, a) =
    (suc i, y, e, l, k, AllBefore-cons n i x seen s a)
Sleeps-cons n x seen asleep s a = first
  where
    first : (j : ℕ) (y : ℕ × Bool) → get_elem? (x ∷ seen) j ≡ some y → SleepsOn n y
    first zero y e = subst (SleepsOn n) (ground arith) s
    first (suc j) y e = a j y e

sleep_from-Sleeps :
    (ticks0 n : ℕ) (seen : List (ℕ × Bool))
    → ticks0 < 2 ^ 32
    → All (λ (x : ℕ × Bool). x.0 < 2 ^ 32) seen
    → Sleeps n seen (sleep_from ticks0 n (map (observed ticks0) seen))
unfolding sleep_from
sleep_from-Sleeps ticks0 n [] h l = λ j y e. absurd (ground arith)
sleep_from-Sleeps ticks0 n ((e, true) ∷ seen) h l = elim (Bool-cases (ltb e n)) [
  | inr z ↦
      rw (elapsed ticks0 e h l.0, z)
        (0, (e, true), refl, ground (arith, z), λ j y q. absurd (omega arith))
  | inl z ↦
      rw (elapsed ticks0 e h l.0, z)
        (0, (e, true), refl, ltb→lt e n z, refl, λ j y q. absurd (omega arith))
]
sleep_from-Sleeps ticks0 n ((e, false) ∷ seen) h l = elim (Bool-cases (ltb e n)) [
  | inr z ↦
      rw (elapsed ticks0 e h l.0, z)
        (0, (e, false), refl, ground (arith, z), λ j y q. absurd (omega arith))
  | inl z ↦
      rw (elapsed ticks0 e h l.0, z)
        (Sleeps-cons n (e, false) seen (sleep_from ticks0 n (map (observed ticks0) seen))
          (ltb→lt e n z, refl) (sleep_from-Sleeps ticks0 n seen h l.1))
]

-- What sys_sleep answers.
abbrev pub Answers : Option ℕ → List (ℕ × Bool) → Option SleepEnd → Type 0
Answers none seen r = r ≡ none
Answers (some n) seen r = (end : SleepEnd) × (r ≡ some end) × Sleeps n seen end

-- For a process that never stays off the CPU until the count of ticks has gone full circle,
-- sys_sleep fails at once if it cannot fetch its argument n. Otherwise it ends without an error at
-- the first time that the process runs with n ticks passed, as an unsigned number, since the call,
-- and with an error if it runs before and is killed; as long as neither has happened it sleeps.
-- The count may wrap around meanwhile.
pub sys_sleep-Sleeps :
    (m : Memory) (sz esp ticks0 : ℕ) (seen : List (ℕ × Bool))
    → ticks0 < 2 ^ 32
    → All (λ (x : ℕ × Bool). x.0 < 2 ^ 32) seen
    → Answers (argint m sz esp 0) seen (sys_sleep m sz esp ticks0 (map (observed ticks0) seen))
unfolding sys_sleep
sys_sleep-Sleeps m sz esp ticks0 seen h l = fetched (argint m sz esp 0)
  where
    fetched :
        (o : Option ℕ)
        → Answers o seen (elim o [
          | none ↦ none
          | some n ↦ some (sleep_from ticks0 n (map (observed ticks0) seen))
        ])
    fetched none = refl
    fetched (some n) = (
      sleep_from ticks0 n (map (observed ticks0) seen),
      refl,
      sleep_from-Sleeps ticks0 n seen h l,
    )

-- ===== src/Spinlock/Exclusion.antt =====
-- Mutual exclusion: at most one CPU is in the critical section.
use pcs_ii.Base.{
  ℕ, ◌+◌, ◌-◌, ◌≡◌, ◌≢◌, refl, ap, true, false, ◌&&◌, Bool-cases, inl, inr, List, [], ◌∷◌, none,
  some, ◌==◌, ==-refl, ==-ne, arith,
}
use pcs_ii.Base.Outcome.{Outcome, ret, panic, ◌>>=◌}
use pcs_ii.Spinlock.{Cpu, Spinlock, pushcli, popcli, holding, is_cpu}
use pcs_ii.Spinlock.Machine.{
  Phase, outside, spinning, taken, inside, leaving, freed, Machine, step_from, interleave,
}
use pcs_ii.Spinlock.Safe.{holds, IsOff, Fits, IsSafe, StaysSafe, Fits-other, clash, moved-IsSafe}

Fits-locked :
    (p : Phase) (c : Cpu) (lk : Spinlock) (i : ℕ)
    → Fits p c lk i
    → Fits p c (record lk { locked = true }) i
Fits-locked outside c lk i f = f
Fits-locked spinning c lk i f = f
Fits-locked taken c lk i f = (f.0, refl, f.2)
Fits-locked inside c lk i f = (f.0, refl, f.2)
Fits-locked leaving c lk i f = (f.0, refl, f.2)
Fits-locked freed c lk i f = f

Fits-not_cpu :
    (p : Phase) (c : Cpu) (lk : Spinlock) (i : ℕ)
    → holds p ≡ false
    → Fits p c lk i
    → is_cpu lk.cpu i ≡ false
Fits-not_cpu outside c lk i h f = f.1
Fits-not_cpu spinning c lk i h f = f.1
Fits-not_cpu taken c lk i h f = cc
Fits-not_cpu inside c lk i h f = cc
Fits-not_cpu leaving c lk i h f = cc
Fits-not_cpu freed c lk i h f = f.1

Fits-unlocked :
    (p : Phase) (c : Cpu) (lk : Spinlock) (i : ℕ)
    → lk.locked ≡ false
    → Fits p c lk i
    → holds p ≡ false
Fits-unlocked outside c lk i h f = refl
Fits-unlocked spinning c lk i h f = refl
Fits-unlocked taken c lk i h f = absurd (clash lk.locked f.1 h)
Fits-unlocked inside c lk i h f = absurd (clash lk.locked f.1 h)
Fits-unlocked leaving c lk i h f = absurd (clash lk.locked f.1 h)
Fits-unlocked freed c lk i h f = refl

holding-IsOff :
    (me : ℕ) (c : Cpu) (lk : Spinlock)
    → IsOff c
    → (c' : Cpu) × (holding me c lk ≡ ret (lk.locked && is_cpu lk.cpu me, c')) × IsOff c'
unfolding holding pushcli popcli
holding-IsOff me c lk h = (
  record c { ncli = c.ncli + 1 - 1; interrupts = false; intena = c.intena },
  ground (arith, h.0, h.1),
  (omega arith, refl),
)

popcli-IsOff : (c : Cpu) → IsOff c → (c' : Cpu) × (popcli c ≡ ret c') × (c'.ncli ≡ 0)
unfolding popcli
popcli-IsOff c h = (
  record c { ncli = c.ncli - 1; interrupts = c.ncli - 1 == 0 && c.intena },
  ground (arith, h.0, h.1),
  omega arith,
)

module _ (m : Machine) (me : ℕ) (s : IsSafe m) where
  others_wait : holds (m.at me) ≡ true → (j : ℕ) → me ≢ j → holds (m.at j) ≡ false
  others_wait h j n = elim (Bool-cases (holds (m.at j))) [
    | inl y ↦ absurd (n (s.exclusive me j h y))
    | inr x ↦ x
  ]

  others_not_cpu : holds (m.at me) ≡ true → (j : ℕ) → me ≢ j → is_cpu (m.lock).cpu j ≡ false
  others_not_cpu h j n = Fits-not_cpu (m.at j) (m.cpus j) m.lock j (others_wait h j n) (s.fits j)

step_from-IsSafe :
    (p : Phase) (m : Machine) (me : ℕ)
    → IsSafe m
    → m.at me ≡ p
    → Fits p (m.cpus me) m.lock me
    → StaysSafe (step_from p m me)
unfolding step_from pushcli
step_from-IsSafe outside m me s e f =
    let (c, h, o) = holding-IsOff me (pushcli (m.cpus me)) m.lock (omega (arith, f.0), refl) in
    let no : ((m.lock).locked && is_cpu (m.lock).cpu me) ≡ false = ground (arith, f.1) in
    rw h (rw no (moved-IsSafe m me m.lock c spinning s (o, f.1) (λ j n. s.fits j) (λ x j n. cc)))
step_from-IsSafe spinning m me s e f = elim (Bool-cases (m.lock).locked) [
  | inl y ↦ rw y (
      moved-IsSafe m me (record (m.lock) { locked = true }) (m.cpus me) spinning s f
        (λ j n. Fits-locked (m.at j) (m.cpus j) m.lock j (s.fits j)) (λ x j n. cc))
  | inr y ↦ rw y (
      moved-IsSafe m me (record (m.lock) { locked = true }) (m.cpus me) taken s (f.0, refl, f.1)
        (λ j n. Fits-locked (m.at j) (m.cpus j) m.lock j (s.fits j))
        (λ x j n. Fits-unlocked (m.at j) (m.cpus j) m.lock j y (s.fits j)))
]
step_from-IsSafe taken m me s e f =
    let h = ap holds e in
    moved-IsSafe m me (record (m.lock) { cpu = some me }) (m.cpus me) inside s
      (f.0, f.1, ==-refl me)
      (λ j n.
        Fits-other (m.at j) (m.cpus j) m.lock (record (m.lock) { cpu = some me }) j
          (others_wait m me s h j n) (==-ne me j n) (s.fits j))
      (λ x j n. others_wait m me s h j n)
step_from-IsSafe inside m me s e f =
    let h = ap holds e in
    let (c, g, o) = holding-IsOff me (m.cpus me) m.lock f.0 in
    let yes_held : ((m.lock).locked && is_cpu (m.lock).cpu me) ≡ true = ground (arith, f.1, f.2) in
    rw g (
      rw yes_held (
        moved-IsSafe m me (record (m.lock) { cpu = none }) c leaving s (o, f.1, refl)
          (λ j n.
            Fits-other (m.at j) (m.cpus j) m.lock (record (m.lock) { cpu = none }) j
              (others_wait m me s h j n) refl (s.fits j))
          (λ x j n. others_wait m me s h j n)))
step_from-IsSafe leaving m me s e f =
    let h = ap holds e in
    moved-IsSafe m me (record (m.lock) { locked = false }) (m.cpus me) freed s (f.0, f.2)
      (λ j n.
        Fits-other (m.at j) (m.cpus j) m.lock (record (m.lock) { locked = false }) j
          (others_wait m me s h j n) (others_not_cpu m me s h j n) (s.fits j))
      (λ x j n. cc)
step_from-IsSafe freed m me s e f =
    let (c, h, z) = popcli-IsOff (m.cpus me) f.0 in
    rw h (moved-IsSafe m me m.lock c outside s (z, f.1) (λ j n. s.fits j) (λ x j n. cc))

StaysSafe-bind :
    (o : Outcome Machine) (k : Machine → Outcome Machine)
    → StaysSafe o
    → ((m : Machine) → IsSafe m → StaysSafe (k m))
    → StaysSafe (o >>= k)
StaysSafe-bind panic k h f = h
StaysSafe-bind (ret m) k h f = f m h

-- From a safe state, in particular one where every CPU is outside and the lock is free, no
-- interleaving of the CPUs makes acquire or release panic, and every state that is reached is safe: at most
-- one CPU holds the lock, its interrupts are off, and the lock names it while it is inside.
pub interleave-IsSafe :
    (schedule : List ℕ) (m : Machine) → IsSafe m → StaysSafe (interleave schedule m)
unfolding interleave
interleave-IsSafe [] m s = s
interleave-IsSafe (me ∷ rest) m s =
    StaysSafe-bind (step_from (m.at me) m me) (interleave rest)
      (step_from-IsSafe (m.at me) m me s refl (s.fits me)) (λ m' s'. interleave-IsSafe rest m' s')

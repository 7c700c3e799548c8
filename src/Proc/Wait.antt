-- ===== src/Proc/Wait.antt =====
-- wait of proc.c, against the children that the table holds.

use pcs_ii.Base.{
  modify, ℕ, zero, suc, ◌+◌, ◌≡◌, refl, ap, ◌∙◌, Bool, true, false, not, ◌&&◌, ◌||◌, Bool-cases,
  inl, inr, ◌⊎◌, Option, none, some, arith, List, [], ◌∷◌, get_elem?,
}
use pcs_ii.Proc.{
  Kernel, Waited, reaped, no_children, wait_sleeps, as_reaped, reap, wait, is_killed, Proc, proc_at,
  is_zombie, sleep_enter, parent_is, scan_children,
}
use pcs_ii.Base.Outcome.{Outcome, ret, panic, ◌>>=◌}
use pcs_ii.Kalloc.{Kmem, kfree}
use pcs_ii.Vm.{Linker, freevm}

-- Does a process have children?
abbrev pub has_child : List Proc → ℕ → Bool
has_child [] cur = false
has_child (p ∷ ps) cur = parent_is p.parent cur || has_child ps cur

abbrev pub NoZombieChild : List Proc → ℕ → Type 0
NoZombieChild ps cur =
    (n : ℕ) (p : Proc)
    → get_elem? ps n ≡ some p
    → parent_is p.parent cur ≡ true
    → is_zombie p.state ≡ false

scan_children_found :
    (ps : List Proc) (i cur : ℕ) (b : Bool) (j : ℕ) (kids : Bool)
    → scan_children ps i cur b ≡ (some j, kids)
    → (n : ℕ) × (p : Proc) × (j ≡ i + n)
      × (get_elem? ps n ≡ some p)
      × (parent_is p.parent cur ≡ true)
      × (is_zombie p.state ≡ true)
unfolding scan_children
scan_children_found [] i cur b j kids h = cc
scan_children_found (p ∷ ps) i cur b j kids h =
    elim (Bool-cases (parent_is p.parent cur && is_zombie p.state)) [
      | inl e ↦ (0, p, ground arith, refl, ground arith, ground arith)
      | inr e ↦
          let (n, q, a, c, d, f) =
            scan_children_found ps (i + 1) cur (parent_is p.parent cur || b) j kids
              (ground arith) in
          (suc n, q, omega arith, c, d, f)
    ]

scan_children_kids :
    (ps : List Proc) (i cur : ℕ) (b kids : Bool)
    → scan_children ps i cur b ≡ (none, kids)
    → (kids ≡ (has_child ps cur || b)) × NoZombieChild ps cur
unfolding scan_children
scan_children_kids [] i cur b kids h = (ground arith, λ n p e. cc)
scan_children_kids (p ∷ ps) i cur b kids h =
    elim (Bool-cases (parent_is p.parent cur && is_zombie p.state)) [
      | inl e ↦ absurd (ground arith)
      | inr e ↦
          let r =
            scan_children_kids ps (i + 1) cur (parent_is p.parent cur || b) kids (ground arith) in
          (ground arith, spread e r.1)
    ]
  where
    spread :
        (parent_is p.parent cur && is_zombie p.state) ≡ false
        → NoZombieChild ps cur
        → NoZombieChild (p ∷ ps) cur
    spread e h zero q f c = ground arith
    spread e h (suc n) q f c = h n q f c

-- What wait() reports, and what it did to the table.
abbrev pub WaitSpec : Kernel → ℕ → Waited → Kernel → Type 0
WaitSpec k cur (reaped pid) k' =
    (i : ℕ) × (p : Proc) × (get_elem? k.procs i ≡ some p)
    × (parent_is p.parent cur ≡ true)
    × (is_zombie p.state ≡ true)
    × (pid ≡ p.pid)
    × (k'.procs ≡ modify k.procs i as_reaped)
WaitSpec k cur no_children k' =
    (k' ≡ k)
    × NoZombieChild k.procs cur
    × ((has_child k.procs cur ≡ false) ⊎ (is_killed k.procs cur ≡ true))
WaitSpec k cur wait_sleeps k' =
    (k' ≡ record k { procs = sleep_enter k.procs cur (proc_at cur) })
    × NoZombieChild k.procs cur
    × (has_child k.procs cur ≡ true)
    × (is_killed k.procs cur ≡ false)

-- A ZOMBIE child whose kernel stack or whose memory cannot be freed without a panic.
abbrev pub FreeingPanics : Linker → Kernel → ℕ → Type 0
FreeingPanics l k cur =
    (i : ℕ) × (p : Proc) × (get_elem? k.procs i ≡ some p)
    × (parent_is p.parent cur ≡ true)
    × (is_zombie p.state ≡ true)
    × ((kfree l.end k.kmem p.kstack ≡ panic)
        ⊎ ((m : Kmem) × (kfree l.end k.kmem p.kstack ≡ ret m) × (freevm l m p.pgdir ≡ panic)))

-- What comes of wait(), a panic included.
abbrev pub WaitEnds : Linker → Kernel → ℕ → Outcome (Waited × Kernel) → Type 0
WaitEnds l k cur panic = FreeingPanics l k cur
WaitEnds l k cur (ret r) = WaitSpec k cur r.0 r.1

reap-WaitEnds :
    (l : Linker) (k : Kernel) (cur i : ℕ) (p : Proc)
    → get_elem? k.procs i ≡ some p
    → parent_is p.parent cur ≡ true
    → is_zombie p.state ≡ true
    → WaitEnds l k cur (reap l k i p)
unfolding reap
reap-WaitEnds l k cur i p e c z = go (kfree l.end k.kmem p.kstack) refl
  where
    freed :
        (m : Kmem) (o : Outcome Kmem)
        → kfree l.end k.kmem p.kstack ≡ ret m
        → freevm l m p.pgdir ≡ o
        → WaitEnds l k cur (
            o >>= λ m2.
            ret (reaped p.pid, record k { procs = modify k.procs i as_reaped; kmem = m2 }))
    freed m panic a b = (i, p, e, c, z, inr (m, a, b))
    freed m (ret m2) a b = (i, p, e, c, z, refl, refl)

    go :
        (o : Outcome Kmem)
        → kfree l.end k.kmem p.kstack ≡ o
        → WaitEnds l k cur (
            o >>= λ m1. freevm l m1 p.pgdir >>= λ m2.
            ret (reaped p.pid, record k { procs = modify k.procs i as_reaped; kmem = m2 }))
    go panic a = (i, p, e, c, z, inl a)
    go (ret m) a = freed m (freevm l m p.pgdir) a refl

-- wait() panics only where there is a ZOMBIE child whose kernel stack or memory cannot be freed
-- without a panic. Otherwise it returns the pid of a ZOMBIE child and makes its slot UNUSED; or
-- it returns -1, changing nothing, where no child is a ZOMBIE and there is no child or the
-- caller was killed; or it sleeps, where no child is a ZOMBIE, there is a child and the caller
-- was not killed.
pub wait-WaitEnds : (l : Linker) (k : Kernel) (cur : ℕ) → WaitEnds l k cur (wait l k cur)
unfolding wait
wait-WaitEnds l k cur = go (scan_children k.procs 0 cur false) refl
  where
    go :
        (s : Option ℕ × Bool)
        → scan_children k.procs 0 cur false ≡ s
        → WaitEnds l k cur (wait l k cur)
    go (none, kids) e =
        let (a, b) = scan_children_kids k.procs 0 cur false kids e in
        let same : (scan_children k.procs 0 cur false).1 ≡ kids = ap (λ s. s.1) e in
        elim (Bool-cases (not kids || is_killed k.procs cur)) [
          | inl h ↦ rw (e, wait) (rw (same, h) (refl, b, ground arith))
          | inr h ↦ rw (e, wait) (rw (same, h) (refl, b, ground arith, ground arith))
        ]
    go (some j, kids) e =
        let (n, p, a, b, c, d) = scan_children_found k.procs 0 cur false j kids e in
        let f : get_elem? k.procs j ≡ some p = ap (get_elem? k.procs) (omega arith) ∙ b in
        rw (e, wait) (rw (f, wait) (reap-WaitEnds l k cur j p f c d))

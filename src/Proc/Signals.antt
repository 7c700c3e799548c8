-- ===== src/Proc/Signals.antt =====
-- kill and setpriority: whom they change. A kill that meets a free slot marks the process that the
-- slot is given to next.

use pcs_ii.Base.{
  modify, ℕ, zero, suc, ◌<◌, ◌≡◌, ◌≢◌, refl, ◌∙◌, sym, Bool, true, false, Bool-cases, inl, inr, ◌⊎◌,
  some, arith, ltb, ◌==◌, List, [], ◌∷◌, get_elem?, ==_iff, ==-refl,
}
use pcs_ii.Base.Int.{ℤ}
use pcs_ii.Vm.{Linker}
use pcs_ii.Proc.{Proc, Kernel, unused, embryo, on_pid, kill, mark_killed, setpriority, allocproc}
use pcs_ii.Proc.Slots.{get_elem?-modify}
use pcs_ii.Proc.Table.{IsValid, allocproc_slot, Tame-modify, Tame-IsValid}

-- What on_pid does: it changes the first slot with the pid, or there is none and nothing changes.
abbrev pub OnPid : List Proc → ℕ → (Proc → Proc) → Bool × List Proc → Type 0
OnPid ps pid f r =
    ((i : ℕ) × (p : Proc) × (get_elem? ps i ≡ some p)
      × (p.pid ≡ pid)
      × (r ≡ (true, modify ps i f))
      × ((j : ℕ) (q : Proc) → j < i → get_elem? ps j ≡ some q → q.pid ≢ pid))
    ⊎ ((r ≡ (false, ps)) × ((j : ℕ) (q : Proc) → get_elem? ps j ≡ some q → q.pid ≢ pid))

pub on_pid-OnPid : (ps : List Proc) (pid : ℕ) (f : Proc → Proc) → OnPid ps pid f (on_pid ps pid f)
unfolding on_pid
on_pid-OnPid [] pid f = inr (refl, λ j q e. cc)
on_pid-OnPid (p ∷ ps) pid f = elim (Bool-cases (p.pid == pid)) [
  | inl e ↦ inl (0, p, refl, ground arith, simp e, λ j q l. absurd (omega arith))
  | inr e ↦ elim (on_pid-OnPid ps pid f) [
    | inl (i, q, a, b, c, d) ↦ inl (suc i, q, a, b, ground arith, before e i d)
    | inr (c, d) ↦ inr (ground arith, nowhere e d)
  ]
]
  where
    before :
        (p.pid == pid) ≡ false
        → (i : ℕ) → ((j : ℕ) (q : Proc) → j < i → get_elem? ps j ≡ some q → q.pid ≢ pid)
        → (j : ℕ) (q : Proc) → j < suc i
        → get_elem? (p ∷ ps) j ≡ some q
        → q.pid ≢ pid
    before e i d zero q l h = ground arith
    before e i d (suc j) q l h = d j q (omega arith) h

    nowhere :
        (p.pid == pid) ≡ false
        → ((j : ℕ) (q : Proc) → get_elem? ps j ≡ some q → q.pid ≢ pid)
        → (j : ℕ) (q : Proc) → get_elem? (p ∷ ps) j ≡ some q
        → q.pid ≢ pid
    nowhere e d zero q h = ground arith
    nowhere e d (suc j) q h = d j q h

-- kill succeeds exactly if some slot has the pid. Then the first such slot is marked as killed and
-- is RUNNABLE if it was SLEEPING, and no other slot changes; otherwise nothing changes.
pub kill-OnPid : (ps : List Proc) (pid : ℕ) → OnPid ps pid mark_killed (kill ps pid)
unfolding kill
kill-OnPid ps pid = on_pid-OnPid ps pid mark_killed

mark_killed-tame : (p : Proc) → (mark_killed p).state ≢ unused → p.state ≢ unused
mark_killed-tame p h e = h (ground arith)

on_pid-IsValid :
    (ps : List Proc) (pid next : ℕ) (f : Proc → Proc)
    → ((p : Proc) → ((f p).pid ≡ p.pid) × ((f p).state ≢ unused → p.state ≢ unused))
    → IsValid ps next
    → IsValid (on_pid ps pid f).1 next
on_pid-IsValid ps pid next f t v = elim (on_pid-OnPid ps pid f) [
  | inl (i, p, a, b, c, d) ↦ rw c (
      Tame-IsValid next ps (modify ps i f)
        (Tame-modify next ps i f (λ q e. (λ h. rw (t q).0 h, λ u. ((t q).0, (t q).1 u)))) v)
  | inr (c, d) ↦ rw c v
]

-- kill and setpriority keep pids unique among the slots in use.
pub kill-setpriority-IsValid :
    (ps : List Proc) (pid next : ℕ) (priority : ℤ)
    → IsValid ps next
    → IsValid (kill ps pid).1 next × IsValid (setpriority ps pid priority).1 next
unfolding kill setpriority
kill-setpriority-IsValid ps pid next priority v = (
  on_pid-IsValid ps pid next mark_killed (λ p. (refl, mark_killed-tame p)) v,
  on_pid-IsValid ps pid next _ (λ p. (refl, λ u. u)) v,
)

kill_first :
    (ps : List Proc) (pid i : ℕ) (p : Proc)
    → get_elem? ps i ≡ some p
    → p.pid ≡ pid
    → ((j : ℕ) (q : Proc) → j < i → get_elem? ps j ≡ some q → q.pid ≢ pid)
    → ((kill ps pid).0 ≡ true) × (get_elem? (kill ps pid).1 i ≡ some (mark_killed p))
kill_first ps pid i p e m first = elim (kill-OnPid ps pid) [
  | inl (j, q, a, b, c, d) ↦
      let same : i ≡ j = elim (Bool-cases (i == j)) [
        | inl z ↦ (==_iff i j).0 z
        | inr z ↦ elim (Bool-cases (ltb i j)) [
          | inl y ↦ absurd (d i p (ground arith) e m)
          | inr y ↦ absurd (first j q (ground arith) a b)
        ]
      ] in
      (rw c refl, rw (c, ← same, get_elem?-modify ps i i mark_killed, ==-refl i, e) refl)
  | inr (c, d) ↦ absurd (d i p e m)
]

-- A process is born killed: if the slot that allocproc takes next is also the first slot with some
-- pid, such as the 0 of a slot that was never used or was reaped, then kill of that pid succeeds and
-- the next successful allocproc returns an EMBRYO that is marked as killed.
pub allocproc-kill :
    (l : Linker) (k k' : Kernel) (pid i : ℕ) (p : Proc)
    → get_elem? k.procs i ≡ some p
    → p.pid ≡ pid
    → ((j : ℕ) (q : Proc) → j < i → get_elem? k.procs j ≡ some q → q.pid ≢ pid)
    → allocproc l (record k { procs = (kill k.procs pid).1 }) ≡ (some i, k')
    → ((kill k.procs pid).0 ≡ true)
      × ((q : Proc) × (get_elem? k'.procs i ≡ some q) × (q.state ≡ embryo) × (q.killed ≡ true))
allocproc-kill l k k' pid i p e m first h =
    let (f, g) = kill_first k.procs pid i p e m first in
    let (q, a, b, c, d, o) = allocproc_slot l _ k' i h in
    (f, (_, d, refl, born_killed q (sym a ∙ g)))
  where
    born_killed : (q : Proc) → some q ≡ some (mark_killed p) → q.killed ≡ true
    born_killed q s = ground arith

-- ===== src/Proc/Table.antt =====
-- Slots of the process table under a change of one slot or of all; process identifiers stay unique.

use pcs_ii.Base.{
  modify, ℕ, ◌+◌, ◌%◌, ◌^◌, ◌<◌, ◌≡◌, ◌≢◌, refl, ap, ◌∙◌, sym, Bool-cases, Option-cases, inl, inr,
  some, arith, ◌==◌, List, map, get_elem?, ==-refl, ==-ne,
}
use pcs_ii.Kalloc.{kalloc}
use pcs_ii.Vm.{Linker}
use pcs_ii.Proc.{
  Proc, Kernel, unused, find_unused, as_embryo, as_unused, with_kstack, fill_slot, allocproc,
}
use pcs_ii.Proc.Slots.{
  get_elem?-modify, get_elem?-map, modify-modify, find_unused_slot, modify-cases,
}

-- Pids are handed out below `next`, and no two slots in use have the same one.
pub record IsValid (ps : List Proc) (next : ℕ) : Type 0 where
  pub below : (i : ℕ) (p : Proc) → get_elem? ps i ≡ some p → p.pid < next
  pub unique :
      (i j : ℕ) (p q : Proc)
      → get_elem? ps i ≡ some p
      → get_elem? ps j ≡ some q
      → p.state ≢ unused
      → q.state ≢ unused
      → i ≢ j
      → p.pid ≢ q.pid

-- A table in which a slot in use was in use before, under the same pid.
abbrev pub Tame : ℕ → List Proc → List Proc → Type 0
Tame next ps qs =
    (i : ℕ) (q : Proc)
    → get_elem? qs i ≡ some q
    → (p : Proc) × (get_elem? ps i ≡ some p)
      × (p.pid < next → q.pid < next)
      × (q.state ≢ unused → (q.pid ≡ p.pid) × (p.state ≢ unused))

pub Tame-IsValid :
    (next : ℕ) (ps qs : List Proc) → Tame next ps qs → IsValid ps next → IsValid qs next
Tame-IsValid next ps qs s v = record {
  below = λ i q e. let (p, a, b, c) = s i q e in b (v.below i p a);
  unique = λ i j q r e f u w n.
      let (p, a, b, c) = s i q e in
      let (p', a', b', c') = s j r f in
      λ h. v.unique i j p p' a a' (c u).1 (c' w).1 n (sym (c u).0 ∙ h ∙ (c' w).0);
}

pub Tame-refl : (next : ℕ) (ps : List Proc) → Tame next ps ps
Tame-refl next ps i q e = (q, e, λ h. h, λ u. (refl, u))

pub Tame-trans :
    (next : ℕ) (ps qs rs : List Proc) → Tame next ps qs → Tame next qs rs → Tame next ps rs
Tame-trans next ps qs rs s t i r e =
    let (q, a, b, c) = t i r e in
    let (p, a', b', c') = s i q a in
    (p, a', λ h. b (b' h), λ u. ((c u).0 ∙ (c' (c u).1).0, (c' (c u).1).1))

-- A change of one process that is tame.
abbrev pub IsTame : ℕ → (Proc → Proc) → Type 0
IsTame next f =
    (p : Proc)
    → (p.pid < next → (f p).pid < next)
      × ((f p).state ≢ unused → ((f p).pid ≡ p.pid) × (p.state ≢ unused))

pub Tame-modify :
    (next : ℕ) (ps : List Proc) (i : ℕ) (f : Proc → Proc)
    → ((p : Proc)
        → get_elem? ps i ≡ some p
        → (p.pid < next → (f p).pid < next)
          × ((f p).state ≢ unused → ((f p).pid ≡ p.pid) × (p.state ≢ unused)))
    → Tame next ps (modify ps i f)
Tame-modify next ps i f t j q e = elim (modify-cases ps i j f q e) [
  | inl (ij, (p, a, b)) ↦
      let u = t p (ap (get_elem? ps) ij ∙ a) in
      (
        p,
        a,
        λ h. rw b (u.0 h),
        λ w. let x = u.1 (λ z. w (ap (λ r. r.state) b ∙ z)) in (ap (λ r. r.pid) b ∙ x.0, x.1),
      )
  | inr (ij, a) ↦ (q, a, λ h. h, λ u. (refl, u))
]

pub Tame-map :
    (next : ℕ) (ps : List Proc) (f : Proc → Proc) → IsTame next f → Tame next ps (map f ps)
Tame-map next ps f t j q e = elim (Option-cases (get_elem? ps j)) [
  | inl n ↦ absurd (ground (arith, get_elem?-map ps j f))
  | inr (p, a) ↦
      let b : q ≡ f p = ground (arith, get_elem?-map ps j f) in
      (
        p,
        a,
        λ h. rw b ((t p).0 h),
        λ w. let x = (t p).1 (λ z. w (ap (λ r. r.state) b ∙ z)) in (ap (λ r. r.pid) b ∙ x.0, x.1),
      )
]

-- A slot that takes the next pid.
claim-IsValid :
    (ps : List Proc) (next i : ℕ) (f : Proc → Proc)
    → ((p : Proc) → (f p).pid ≡ next)
    → IsValid ps next
    → IsValid (modify ps i f) (next + 1)
claim-IsValid ps next i f h v = record {
  below = λ j q e. elim (modify-cases ps i j f q e) [
    | inl (ij, (p, a, b)) ↦ omega (arith, ap (λ r. r.pid) b, h p)
    | inr (ij, a) ↦ omega (arith, v.below j q a)
  ];
  unique = λ j k q r e g u w n. elim (modify-cases ps i j f q e) [
    | inl (ij, (p, a, b)) ↦ elim (modify-cases ps i k f r g) [
      | inl (ik, (p', a', b')) ↦ absurd (n (sym ij ∙ ik))
      | inr (ik, a') ↦ omega (arith, ap (λ r. r.pid) b, h p, v.below k r a')
    ]
    | inr (ij, a) ↦ elim (modify-cases ps i k f r g) [
      | inl (ik, (p', a', b')) ↦ omega (arith, ap (λ r. r.pid) b', h p', v.below j q a)
      | inr (ik, a') ↦ v.unique j k q r a a' u w n
    ]
  ];
}

fill_slot-IsValid :
    (l : Linker) (k : Kernel) (i : ℕ)
    → k.nextpid + 1 < 2 ^ 32
    → IsValid k.procs k.nextpid
    → IsValid (fill_slot l k i).1.procs (fill_slot l k i).1.nextpid
unfolding fill_slot
fill_slot-IsValid l k i h v =
    let next : (k.nextpid + 1) % 2 ^ 32 ≡ k.nextpid + 1 = omega arith in
    elim (Bool-cases ((kalloc k.kmem).0 == 0)) [
      | inl e ↦
          rw (e, next)
            (rw (modify-modify k.procs i (as_embryo k.nextpid) as_unused)
              (claim-IsValid k.procs k.nextpid i _ (λ p. refl) v))
      | inr e ↦
          rw (e, next)
            (rw (modify-modify k.procs i (as_embryo k.nextpid) (with_kstack (kalloc k.kmem).0))
              (claim-IsValid k.procs k.nextpid i _ (λ p. refl) v))
    ]

-- As long as nextpid does not wrap, allocproc l keeps pids unique among the slots in use and below
-- nextpid, whether it succeeds, finds no free slot, or finds no page for the kernel stack.
pub allocproc-IsValid :
    (l : Linker) (k : Kernel)
    → k.nextpid + 1 < 2 ^ 32
    → IsValid k.procs k.nextpid
    → IsValid (allocproc l k).1.procs (allocproc l k).1.nextpid
unfolding allocproc
allocproc-IsValid l k h v = elim (Option-cases (find_unused k.procs 0)) [
  | inl e ↦ rw (e, allocproc) v
  | inr (i, e) ↦ rw (e, allocproc) (fill_slot-IsValid l k i h v)
]

allocproc-eq :
    (l : Linker) (k k' : Kernel) (i : ℕ)
    → allocproc l k ≡ (some i, k')
    → (find_unused k.procs 0 ≡ some i)
      × ((kalloc k.kmem).0 ≢ 0)
      × (k'.procs
          ≡ modify (modify k.procs i (as_embryo k.nextpid)) i (with_kstack (kalloc k.kmem).0))
unfolding allocproc fill_slot
allocproc-eq l k k' i h = ground arith

-- On success allocproc returns a slot that was UNUSED and is now EMBRYO with the old nextpid as
-- its pid, priority 10 and the kernel stack that kalloc gave, the rest of it as it was, its killed
-- flag included. No other slot changes.
pub allocproc_slot :
    (l : Linker) (k k' : Kernel) (i : ℕ)
    → allocproc l k ≡ (some i, k')
    → (p : Proc) × (get_elem? k.procs i ≡ some p)
      × (p.state ≡ unused)
      × ((kalloc k.kmem).0 ≢ 0)
      × (get_elem? k'.procs i ≡ some (with_kstack (kalloc k.kmem).0 (as_embryo k.nextpid p)))
      × ((j : ℕ) → i ≢ j → get_elem? k'.procs j ≡ get_elem? k.procs j)
allocproc_slot l k k' i h =
    let (a, b, c) = allocproc-eq l k k' i h in
    let (p, e, u) = find_unused_slot k.procs i a in
    let f = λ (q : Proc). with_kstack (kalloc k.kmem).0 (as_embryo k.nextpid q) in
    let d : k'.procs ≡ modify k.procs i f =
      c ∙ modify-modify k.procs i (as_embryo k.nextpid) (with_kstack (kalloc k.kmem).0) in
    (
      p,
      e,
      u,
      b,
      rw (d, get_elem?-modify k.procs i i f, ==-refl i, e) refl,
      λ j n. rw (d, get_elem?-modify k.procs i j f, ==-ne i j n) refl,
    )

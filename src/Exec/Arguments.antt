-- ===== src/Exec/Arguments.antt =====
-- The strings that exec pushes.
use pcs_ii.Base.{
  ℕ, suc, ◌+◌, ◌%◌, ◌^◌, ◌≤◌, ◌<◌, ◌≡◌, refl, ap, ◌∙◌, sym, Bool, true, false, Bool-cases,
  Option-cases, inl, inr, List, [], ◌∷◌, ◌++◌, Option, none, some, length, length-append, leb, ltb,
  ltb→lt, subst, if◌then◌else◌, arith,
}
use mathlib.Core.List.{append_assoc, append-nil}
use pcs_ii.Base.Outcome.{Outcome, ret, panic}
use pcs_ii.Memory.{strlen}
use pcs_ii.Kalloc.{Kmem}
use pcs_ii.Vm.{copyout}
use pcs_ii.Inode.{Run, done, panics, waits}
use pcs_ii.Elf.{Machine}
use pcs_ii.Exec.{arg_place, push_arg, push_args}

-- The strings of argv are copied below `sp` one below the other, each with its null byte, at the
-- addresses `places`, which are multiples of 4. `last` is the lowest, and `m'` is the machine then.
-- The last constructor is for a string that is longer than all the memory below.
pub data Pushes (fuel pgdir : ℕ) : Machine → List ℕ → ℕ → List ℕ → ℕ → Machine → Type 0 where
  all_pushed : {m : Machine} {sp : ℕ} → Pushes fuel pgdir m [] sp [] sp m
  push :
      {m m' : Machine} {a sp p n last : ℕ} {argv places : List ℕ} {k : Kmem}
      → strlen fuel m.kmem.mem a ≡ some n
      → copyout m.kmem pgdir p a (n + 1) ≡ ret (true, k)
      → p % 4 ≡ 0
      → p + (n + 1) ≤ sp
      → Pushes fuel pgdir (record m { kmem = k }) argv p places last m'
      → Pushes fuel pgdir m (a ∷ argv) sp (p ∷ places) last m'
  too_long :
      {m m' : Machine} {a sp n last : ℕ} {argv places : List ℕ}
      → strlen fuel m.kmem.mem a ≡ some n
      → sp < n + 1
      → Pushes fuel pgdir m (a ∷ argv) sp places last m'

arg_place-lt : (sp n : ℕ) → (arg_place sp n % 4 ≡ 0) × (arg_place sp n < 2 ^ 32)
arg_place-lt sp n = (omega arith, omega arith)

arg_place-room : (sp n : ℕ) → sp < 2 ^ 32 → n + 1 ≤ sp → arg_place sp n + (n + 1) ≤ sp
arg_place-room sp n h l = omega arith

-- What push_arg answers for one string.
abbrev Pushed : ℕ → ℕ → Machine → ℕ → ℕ → Run (Option ℕ × Machine) → Type 0
Pushed fuel pgdir m a sp panics = Unit
Pushed fuel pgdir m a sp waits = Unit
Pushed fuel pgdir m a sp (done (none, m')) = Unit
Pushed fuel pgdir m a sp (done (some p, m')) =
    (n : ℕ) × (k : Kmem) × (strlen fuel m.kmem.mem a ≡ some n)
    × (copyout m.kmem pgdir p a (n + 1) ≡ ret (true, k))
    × (m' ≡ record m { kmem = k })
    × (p ≡ arg_place sp n)

push_arg-Pushed :
    (fuel pgdir : ℕ) (m : Machine) (a sp : ℕ)
    → Pushed fuel pgdir m a sp (push_arg fuel pgdir a sp m)
unfolding push_arg
push_arg-Pushed fuel pgdir m a sp = elim (Option-cases (strlen fuel m.kmem.mem a)) [
  | inl e ↦ rw (e, push_arg) tt
  | inr (n, e) ↦
      rw (e, push_arg) (copied n e (copyout m.kmem pgdir (arg_place sp n) a (n + 1)) refl)
]
  where
    copied :
        (n : ℕ)
        → strlen fuel m.kmem.mem a ≡ some n
        → (o : Outcome (Bool × Kmem)) → copyout m.kmem pgdir (arg_place sp n) a (n + 1) ≡ o
        → Pushed fuel pgdir m a sp (elim o as (λ _. Run (Option ℕ × Machine)) [
          | panic ↦ panics
          | ret (ok, k) ↦ done (if ok then some (arg_place sp n) else none, record m { kmem = k })
        ])
    copied n e panic c = tt
    copied n e (ret (false, k)) c = tt
    copied n e (ret (true, k)) c = (n, k, e, c, refl, refl)

-- What push_args answers, after `before` has been pushed.
abbrev pub Answers :
    ℕ → ℕ → Machine → List ℕ → ℕ → List ℕ → Run (Option (ℕ × List ℕ) × Machine) → Type 0
Answers fuel pgdir m argv sp before panics = Unit
Answers fuel pgdir m argv sp before waits = Unit
Answers fuel pgdir m argv sp before (done (none, m')) = Unit
Answers fuel pgdir m argv sp before (done (some (last, places), m')) =
    (new : List ℕ) × (places ≡ before ++ new)
    × (length new ≡ length argv)
    × (length places ≤ 32)
    × (last % 4 ≡ 0)
    × (last < 2 ^ 32)
    × Pushes fuel pgdir m argv sp new last m'

-- One more string before the others.
Pushes-cons :
    (fuel pgdir : ℕ) (m m' : Machine) (a sp p n last : ℕ) (argv places : List ℕ) (k : Kmem)
    → sp < 2 ^ 32
    → strlen fuel m.kmem.mem a ≡ some n
    → copyout m.kmem pgdir p a (n + 1) ≡ ret (true, k)
    → p ≡ arg_place sp n
    → Pushes fuel pgdir (record m { kmem = k }) argv p places last m'
    → Pushes fuel pgdir m (a ∷ argv) sp (p ∷ places) last m'
Pushes-cons fuel pgdir m m' a sp p n last argv places k h e c s rest =
    elim (Bool-cases (ltb sp (n + 1))) [
      | inl z ↦ too_long e (ltb→lt sp (n + 1) z)
      | inr z ↦
          push e c (ap (λ x. x % 4) s ∙ (arg_place-lt sp n).0)
            (omega (arith, s, arg_place-room sp n h (ground (arith, z)))) rest
    ]

Answers-cons :
    (fuel pgdir : ℕ) (m : Machine) (a sp p n : ℕ) (argv before : List ℕ) (k : Kmem)
    → sp < 2 ^ 32
    → strlen fuel m.kmem.mem a ≡ some n
    → copyout m.kmem pgdir p a (n + 1) ≡ ret (true, k)
    → p ≡ arg_place sp n
    → (r : Run (Option (ℕ × List ℕ) × Machine))
    → Answers fuel pgdir (record m { kmem = k }) argv p (before ++ (p ∷ [])) r
    → Answers fuel pgdir m (a ∷ argv) sp before r
Answers-cons fuel pgdir m a sp p n argv before k h e c s panics x = x
Answers-cons fuel pgdir m a sp p n argv before k h e c s waits x = x
Answers-cons fuel pgdir m a sp p n argv before k h e c s (done (none, m')) x = x
Answers-cons fuel pgdir m a sp p n argv before k h e c s (done (some (last, places), m'))
      (new, q, l, b, al, u, rest) =
    (
      p ∷ new,
      q ∙ append_assoc before (p ∷ []) new,
      ap suc l,
      b,
      al,
      u,
      Pushes-cons fuel pgdir m m' a sp p n last argv new k h e c s rest,
    )

pub push_args-Answers :
    (fuel pgdir : ℕ) (argv : List ℕ) (sp : ℕ) (before : List ℕ) (m : Machine)
    → sp % 4 ≡ 0
    → sp < 2 ^ 32
    → length before ≤ 32
    → Answers fuel pgdir m argv sp before (push_args fuel pgdir argv sp before m)
unfolding push_args
push_args-Answers fuel pgdir [] sp before m al h l =
    ([], sym (append-nil before), refl, l, al, h, all_pushed)
push_args-Answers fuel pgdir (a ∷ argv) sp before m al h l =
    elim (Bool-cases (leb 32 (length before))) [
      | inl z ↦ rw z tt
      | inr z ↦ rw z (
          next (λ p m1. push_args-Answers fuel pgdir argv p (before ++ (p ∷ [])) m1)
            (push_arg fuel pgdir a sp m) (push_arg-Pushed fuel pgdir m a sp) (ground (arith, z)))
    ]
  where
    next :
        ((p : ℕ) (m1 : Machine)
          → p % 4 ≡ 0
          → p < 2 ^ 32
          → length (before ++ (p ∷ [])) ≤ 32
          → Answers fuel pgdir m1 argv p
              (before ++ (p ∷ []))
              (push_args fuel pgdir argv p (before ++ (p ∷ [])) m1))
        → (r : Run (Option ℕ × Machine)) → Pushed fuel pgdir m a sp r
        → length before < 32
        → Answers fuel pgdir m
            (a ∷ argv)
            sp
            before
            (elim r as (λ _. Run (Option (ℕ × List ℕ) × Machine)) [
              | done (o, m1) ↦
                  (elim o as (λ _. Machine → Run (Option (ℕ × List ℕ) × Machine)) [
                    | none ↦ (λ m2. done (none, m2))
                    | some p ↦ push_args fuel pgdir argv p (before ++ (p ∷ []))
                  ])
                    m1
              | panics ↦ panics
              | waits ↦ waits
            ])
    next ih panics x b = tt
    next ih waits x b = tt
    next ih (done (none, m1)) x b = tt
    next ih (done (some p, m1)) (n, k, e, c, same, s) b =
        Answers-cons fuel pgdir m a sp p n argv before k h e c s
          (push_args fuel pgdir argv p (before ++ (p ∷ [])) m1)
          (subst
            (λ y.
              Answers fuel pgdir y argv p (before ++ (p ∷ []))
                (push_args fuel pgdir argv p (before ++ (p ∷ [])) m1))
            same
            (ih p m1 (ap (λ y. y % 4) s ∙ (arg_place-lt sp n).0)
              (omega (arith, s, (arg_place-lt sp n).1))
              (omega (arith, length-append before (p ∷ [])))))

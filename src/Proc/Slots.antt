-- ===== src/Proc/Slots.antt =====
-- Slots of the process table.
use mathlib.Core.Option
use pcs_ii.Base.{
  modify, ℕ, zero, suc, ◌+◌, ◌≡◌, ◌≢◌, refl, ap, ◌∙◌, Bool-cases, Option-cases, inl, inr, ◌⊎◌, some,
  arith, ◌==◌, if◌then◌else◌, List, [], ◌∷◌, map, get_elem?, length, ==_iff,
}
use pcs_ii.Proc.{Proc, unused, find_unused, is_unused}

pub get_elem?-modify :
    (ps : List Proc) (i j : ℕ) (f : Proc → Proc)
    → get_elem? (modify ps i f) j
      ≡ (if i == j then Option.map f (get_elem? ps j) else get_elem? ps j)
get_elem?-modify [] i j f = ground arith
get_elem?-modify (p ∷ ps) zero zero f = refl
get_elem?-modify (p ∷ ps) zero (suc j) f = ground arith
get_elem?-modify (p ∷ ps) (suc i) zero f = ground arith
get_elem?-modify (p ∷ ps) (suc i) (suc j) f = ground (arith, get_elem?-modify ps i j f)

pub get_elem?-map :
    (ps : List Proc) (j : ℕ) (f : Proc → Proc)
    → get_elem? (map f ps) j ≡ Option.map f (get_elem? ps j)
get_elem?-map [] j f = refl
get_elem?-map (p ∷ ps) zero f = refl
get_elem?-map (p ∷ ps) (suc j) f = get_elem?-map ps j f

pub length-modify : (ps : List Proc) (i : ℕ) (f : Proc → Proc) → length (modify ps i f) ≡ length ps
length-modify [] i f = refl
length-modify (p ∷ ps) zero f = refl
length-modify (p ∷ ps) (suc i) f = ap suc (length-modify ps i f)

pub modify-modify :
    (ps : List Proc) (i : ℕ) (f g : Proc → Proc)
    → modify (modify ps i f) i g ≡ modify ps i (λ p. g (f p))
modify-modify [] i f g = refl
modify-modify (p ∷ ps) zero f g = refl
modify-modify (p ∷ ps) (suc i) f g = ap (λ qs. p ∷ qs) (modify-modify ps i f g)

find_unused-some :
    (ps : List Proc) (i j : ℕ)
    → find_unused ps i ≡ some j
    → (n : ℕ) × (p : Proc) × (j ≡ i + n) × (get_elem? ps n ≡ some p) × (p.state ≡ unused)
unfolding find_unused
find_unused-some [] i j h = cc
find_unused-some (p ∷ ps) i j h = elim (Bool-cases (is_unused p.state)) [
  | inl e ↦ (0, p, ground arith, refl, ground arith)
  | inr e ↦
      let (n, q, a, b, c) = find_unused-some ps (i + 1) j (rw (← h) (simp e)) in
      (suc n, q, omega arith, b, c)
]

-- A slot that find_unused returns is UNUSED.
pub find_unused_slot :
    (ps : List Proc) (j : ℕ)
    → find_unused ps 0 ≡ some j
    → (p : Proc) × (get_elem? ps j ≡ some p) × (p.state ≡ unused)
find_unused_slot ps j h =
    let (n, p, a, b, c) = find_unused-some ps 0 j h in (p, ap (get_elem? ps) (omega arith) ∙ b, c)

-- What a slot of a changed table holds.
pub modify-cases :
    (ps : List Proc) (i j : ℕ) (f : Proc → Proc) (q : Proc)
    → get_elem? (modify ps i f) j ≡ some q
    → ((i ≡ j) × ((p : Proc) × (get_elem? ps j ≡ some p) × (q ≡ f p)))
      ⊎ ((i ≢ j) × (get_elem? ps j ≡ some q))
modify-cases ps i j f q h = elim (Bool-cases (i == j)) [
  | inl e ↦ elim (Option-cases (get_elem? ps j)) [
    | inl n ↦ absurd (ground (arith, get_elem?-modify ps i j f))
    | inr (p, a) ↦ inl ((==_iff i j).0 e, (p, a, ground (arith, get_elem?-modify ps i j f)))
  ]
  | inr e ↦ inr (ground arith, ground (arith, get_elem?-modify ps i j f))
]

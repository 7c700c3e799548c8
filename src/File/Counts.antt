-- ===== src/File/Counts.antt =====
-- How often a file is referred to by descriptors.
use pcs_ii.Base.{
  modify, ℕ, zero, suc, ◌+◌, ◌≤◌, ◌≡◌, refl, ap, List, [], ◌∷◌, Option, none, some, set, get_elem?,
  ◌==◌, if◌then◌else◌, arith, ==-refl,
}
use mathlib.Core.Option
use pcs_ii.File.{File, free_fd}

abbrev pub refers : ℕ → Option ℕ → ℕ
refers f none = 0
refers f (some g) = if g == f then 1 else 0

abbrev pub count : ℕ → List (Option ℕ) → ℕ
count f [] = 0
count f (o ∷ os) = refers f o + count f os

abbrev pub count_all : ℕ → List (List (Option ℕ)) → ℕ
count_all f [] = 0
count_all f (o ∷ os) = count f o + count_all f os

pub count-set :
    (f : ℕ) (os : List (Option ℕ)) (i : ℕ) (old new : Option ℕ)
    → get_elem? os i ≡ some old
    → count f (set os i new) + refers f old ≡ count f os + refers f new
count-set f [] i old new h = absurd (ground arith)
count-set f (o ∷ os) zero old new h =
    let e : o ≡ old = ground arith in omega (arith, ap (refers f) e)
count-set f (o ∷ os) (suc i) old new h = omega (arith, count-set f os i old new h)

pub count_all-set :
    (f : ℕ) (ps : List (List (Option ℕ))) (p : ℕ) (old new : List (Option ℕ))
    → get_elem? ps p ≡ some old
    → count_all f (set ps p new) + count f old ≡ count_all f ps + count f new
count_all-set f [] p old new h = absurd (ground arith)
count_all-set f (o ∷ ps) zero old new h =
    let e : o ≡ old = ground arith in omega (arith, ap (count f) e)
count_all-set f (o ∷ ps) (suc p) old new h = omega (arith, count_all-set f ps p old new h)

pub get_elem?-modify :
    (fs : List File) (i j : ℕ) (f : File → File)
    → get_elem? (modify fs i f) j
      ≡ (if i == j then Option.map f (get_elem? fs j) else get_elem? fs j)
get_elem?-modify [] i j f = ground arith
get_elem?-modify (x ∷ xs) zero zero f = refl
get_elem?-modify (x ∷ xs) zero (suc j) f = ground arith
get_elem?-modify (x ∷ xs) (suc i) zero f = ground arith
get_elem?-modify (x ∷ xs) (suc i) (suc j) f = ground (arith, get_elem?-modify xs i j f)

-- A descriptor that free_fd returns is free.
pub free_fd-none :
    (os : List (Option ℕ)) (i fd : ℕ)
    → free_fd os i ≡ some fd
    → (n : ℕ) × (fd ≡ i + n) × (get_elem? os n ≡ some none)
unfolding free_fd
free_fd-none [] i fd h = cc
free_fd-none (none ∷ os) i fd h = (0, ground arith, refl)
free_fd-none (some f ∷ os) i fd h =
    let (n, a, b) = free_fd-none os (i + 1) fd h in (suc n, omega arith, b)

-- The references that a process holds are counted.
pub count-le :
    (f : ℕ) (os : List (Option ℕ)) (i : ℕ) → get_elem? os i ≡ some (some f) → 1 ≤ count f os
count-le f [] i h = absurd (ground arith)
count-le f (o ∷ os) zero h =
    let e : o ≡ some f = ground arith in omega (arith, ap (refers f) e, self)
  where
    self : refers f (some f) ≡ 1
    self = rw (==-refl f) refl
count-le f (o ∷ os) (suc i) h = omega (arith, count-le f os i h)

pub count_all-le :
    (f : ℕ) (ps : List (List (Option ℕ))) (p : ℕ) (os : List (Option ℕ))
    → get_elem? ps p ≡ some os
    → count f os ≤ count_all f ps
count_all-le f [] p os h = absurd (ground arith)
count_all-le f (o ∷ ps) zero os h = let e : o ≡ os = ground arith in omega (arith, ap (count f) e)
count_all-le f (o ∷ ps) (suc p) os h = omega (arith, count_all-le f ps p os h)

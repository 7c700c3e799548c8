-- ===== src/Umalloc/Tests.antt =====
-- Two calls of malloc, which get the tail of what sbrk gave.
use pcs_ii.Base.{ℕ, ◌+◌, ◌-◌, ◌≡◌, refl, [], ◌∷◌, Option, none, some}
use pcs_ii.Umalloc.{Heap, malloc}

abbrev untouched : Heap
untouched = record {
  at = λ _. record { ptr = 0; size = 0 };
  base = 100;
  freep = 0;
  grants = some 1000 ∷ [];
}

-- The results of two calls.
abbrev two_calls : Option (ℕ × ℕ)
two_calls = elim (malloc 5 untouched 16) [
  | none ↦ none
  | some (p, h) ↦ elim (malloc 5 h 8) [ none ↦ none | some (q, h') ↦ some (p, q) ]
]

one_after_the_other : two_calls ≡ some (1000 + 4096 - 3 + 1, 1000 + 4096 - 3 - 2 + 1)
unfolding malloc
one_after_the_other = refl

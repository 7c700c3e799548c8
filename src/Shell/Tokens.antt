-- ===== src/Shell/Tokens.antt =====
-- The lexer of the shell never gives back more than it was given.
use pcs_ii.Base.{
  ℕ, ◌≤◌, ◌<◌, ◌≡◌, refl, ap, ◌∙◌, sym, Bool, true, false, ◌||◌, Bool-cases, inl, inr, List, [],
  ◌∷◌, length, ◌==◌, if◌then◌else◌, arith,
}
use pcs_ii.Shell.{
  Parse, parsed, fails, tires, ◌>>=◌, is_space, is_symbol, skip_space, word, take_word,
  after_greater, token_at, gettoken, starts_with, peek, nothing_left,
}

-- The fuel is enough, and at most `n` bytes are left.
abbrev pub Shrinks {ℓ} : {A : Type ℓ} → ℕ → Parse A → Type 0
Shrinks n (parsed a s) = length s ≤ n
Shrinks n fails = Unit
Shrinks n tires = ⊥

pub Shrinks-bind :
    {A B : Type 0} (n m : ℕ) (p : Parse A) (f : A → List ℕ → Parse B)
    → Shrinks n p
    → ((a : A) (s : List ℕ) → length s ≤ n → Shrinks m (f a s))
    → Shrinks m (p >>= f)
Shrinks-bind n m (parsed a s) f h k = k a s h
Shrinks-bind n m fails f h k = tt
Shrinks-bind n m tires f h k = h

pub Shrinks-le : {A : Type 0} (n m : ℕ) (p : Parse A) → n ≤ m → Shrinks n p → Shrinks m p
Shrinks-le n m (parsed a s) l h = omega arith
Shrinks-le n m fails l h = tt
Shrinks-le n m tires l h = h

pub Shrinks-cond :
    {A : Type 0} (n : ℕ) (b : Bool) (p q : Parse A)
    → (b ≡ true → Shrinks n p)
    → (b ≡ false → Shrinks n q)
    → Shrinks n (if b then p else q)
Shrinks-cond n true p q f g = f refl
Shrinks-cond n false p q f g = g refl

pub length-skip_space : (s : List ℕ) → length (skip_space s) ≤ length s
unfolding skip_space
length-skip_space [] = omega arith
length-skip_space (c ∷ s) = ground (arith, length-skip_space s)

skip_space_first : (s : List ℕ) (c : ℕ) (q : List ℕ) → skip_space s ≡ c ∷ q → is_space c ≡ false
unfolding skip_space
skip_space_first [] c q h = absurd (ground arith)
skip_space_first (d ∷ s) c q h = elim (Bool-cases (is_space d)) [
  | inl x ↦ skip_space_first s c q (sym (rw x refl) ∙ h)
  | inr x ↦
      let same : d ∷ s ≡ c ∷ q = sym (rw x refl) ∙ h in
      let eq : d ≡ c = cc in sym (ap is_space eq) ∙ x
]

length-take_word : (s : List ℕ) → length (take_word s).1 ≤ length s
unfolding take_word
length-take_word [] = omega arith
length-take_word (c ∷ s) = elim (Bool-cases (is_space c || is_symbol c)) [
  | inl x ↦ rw x (omega arith)
  | inr x ↦ rw x (omega (arith, length-take_word s))
]

length-after_greater : (s : List ℕ) → length (after_greater s).1 ≤ length s
length-after_greater [] = omega arith
length-after_greater (d ∷ s) = elim (Bool-cases (d == b'>')) [
  | inl x ↦ rw x (omega arith)
  | inr x ↦ rw x (omega arith)
]

token_at_lt : (c : ℕ) (s : List ℕ) → is_space c ≡ false → length (token_at (c ∷ s)).1 ≤ length s
unfolding take_word
token_at_lt c s h = elim (Bool-cases (c == b'>')) [
  | inl x ↦ rw x (length-after_greater s)
  | inr x ↦ elim (Bool-cases (is_symbol c)) [
    | inl y ↦ rw (x, y) (omega arith)
    | inr y ↦ rw (x, y, h) (length-take_word s)
  ]
]

-- A token that is there takes at least a byte.
pub gettoken_lt :
    (s : List ℕ) → nothing_left (skip_space s) ≡ false → length (gettoken s).1 < length s
unfolding gettoken
gettoken_lt s h = go (skip_space s) refl h
  where
    go : (t : List ℕ) → skip_space s ≡ t → nothing_left t ≡ false → length (gettoken s).1 < length s
    go [] e n = cc
    go (c ∷ q) e n = rw e (
        omega (
          arith,
          length-skip_space (token_at (c ∷ q)).1,
          token_at_lt c q (skip_space_first s c q e),
          length-skip_space s,
          ap length e,
        ))

pub gettoken_le : (s : List ℕ) → length (gettoken s).1 ≤ length s
unfolding gettoken skip_space
gettoken_le s = go (skip_space s) refl
  where
    go : (t : List ℕ) → skip_space s ≡ t → length (gettoken s).1 ≤ length s
    go [] e = rw e (omega arith)
    go (c ∷ q) e = let l = gettoken_lt s (ap nothing_left e) in omega (arith, l)

pub peek_more : (toks s : List ℕ) → peek toks s ≡ true → nothing_left (skip_space s) ≡ false
unfolding peek
peek_more toks s h = go (skip_space s) h
  where
    go : (t : List ℕ) → starts_with toks t ≡ true → nothing_left t ≡ false
    go [] e = cc
    go (c ∷ q) e = refl

pub word_more : (s w : List ℕ) → (gettoken s).0 ≡ word w → nothing_left (skip_space s) ≡ false
unfolding gettoken
word_more s w h = go (skip_space s) h
  where
    go : (t : List ℕ) → (token_at t).0 ≡ word w → nothing_left t ≡ false
    go [] e = cc
    go (c ∷ q) e = refl

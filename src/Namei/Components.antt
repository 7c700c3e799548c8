-- ===== src/Namei/Components.antt =====
-- skipelem against the list of the components of a path.
use pcs_ii.Base.{
  ℕ, ◌≤◌, ◌<◌, ◌≡◌, refl, ap, ◌∙◌, sym, true, false, Bool-cases, inl, inr, List, [], ◌∷◌, Option,
  none, some, length, take, ◌==◌, if◌then◌else◌, arith,
}
use pcs_ii.Namei.{slash, skip_slashes, take_elem, skipelem}
use pcs_ii.Directory.{dirsiz}

-- The parts of a path between its slashes, empty ones too.
abbrev pub parts : List ℕ → List (List ℕ)
parts [] = [] ∷ []
parts (c ∷ p) = elim (parts p) [
  | [] ↦ []
  | e ∷ es ↦ if c == slash then [] ∷ e ∷ es else (c ∷ e) ∷ es
]

abbrev pub nonempty : List (List ℕ) → List (List ℕ)
nonempty [] = []
nonempty ([] ∷ es) = nonempty es
nonempty ((c ∷ e) ∷ es) = (c ∷ e) ∷ nonempty es

abbrev pub components : List ℕ → List (List ℕ)
components p = nonempty (parts p)

-- What a call of skipelem should answer.
abbrev pub Next : List ℕ → Option (List ℕ × List ℕ) → Type 0
Next path none = components path ≡ []
Next path (some (rest, name)) =
    (elem : List ℕ) × (components path ≡ elem ∷ components rest)
    × (name ≡ take dirsiz elem)
    × (length rest < length path)

parts_cons : (p : List ℕ) → (e : List ℕ) × (es : List (List ℕ)) × (parts p ≡ e ∷ es)
parts_cons [] = ([], [], refl)
parts_cons (c ∷ p) =
    let (e, es, h) = parts_cons p in
    elim (Bool-cases (c == slash)) [
      | inl s ↦ ([], e ∷ es, rw h (rw s refl))
      | inr s ↦ (c ∷ e, es, rw h (rw s refl))
    ]

parts-slash : (c : ℕ) (p : List ℕ) → (c == slash) ≡ true → parts (c ∷ p) ≡ [] ∷ parts p
parts-slash c p s = let (e, es, h) = parts_cons p in rw h (rw s refl)

components-skip_slashes : (p : List ℕ) → components (skip_slashes p) ≡ components p
unfolding skip_slashes
components-skip_slashes [] = refl
components-skip_slashes (c ∷ p) = elim (Bool-cases (c == slash)) [
  | inl s ↦ rw s (components-skip_slashes p ∙ sym (ap nonempty (parts-slash c p s)))
  | inr s ↦ rw s refl
]

length-skip_slashes : (p : List ℕ) → length (skip_slashes p) ≤ length p
unfolding skip_slashes
length-skip_slashes [] = omega arith
length-skip_slashes (c ∷ p) = ground (arith, length-skip_slashes p)

-- The parts that stand after a slash.
abbrev after : List ℕ → List (List ℕ)
after [] = []
after (c ∷ p) = parts p

parts-take_elem : (p : List ℕ) → parts p ≡ (take_elem p).0 ∷ after (take_elem p).1
unfolding take_elem
parts-take_elem [] = refl
parts-take_elem (c ∷ p) = elim (Bool-cases (c == slash)) [
  | inl s ↦ parts-slash c p s ∙ rw s refl
  | inr s ↦ rw (parts-take_elem p, s) refl
]

-- Where the element ends there is a slash, or the end.
components-after : (p : List ℕ) → nonempty (after (take_elem p).1) ≡ components (take_elem p).1
unfolding take_elem
components-after [] = refl
components-after (c ∷ p) = elim (Bool-cases (c == slash)) [
  | inl s ↦ rw s (sym (ap nonempty (parts-slash c p s)))
  | inr s ↦ rw s (components-after p)
]

length-take_elem : (p : List ℕ) → length (take_elem p).1 ≤ length p
unfolding take_elem
length-take_elem [] = omega arith
length-take_elem (c ∷ p) = ground (arith, length-take_elem p)

skip_slashes_first :
    (p : List ℕ) (c : ℕ) (q : List ℕ) → skip_slashes p ≡ c ∷ q → (c == slash) ≡ false
unfolding skip_slashes
skip_slashes_first [] c q h = absurd (ground arith)
skip_slashes_first (d ∷ p) c q h = elim (Bool-cases (d == slash)) [
  | inl s ↦ skip_slashes_first p c q (ground arith)
  | inr s ↦ ground arith
]

-- From a path that does not begin with a slash.
skip_elem :
    (path : List ℕ) (c : ℕ) (q : List ℕ)
    → skip_slashes path ≡ c ∷ q
    → (c == slash) ≡ false
    → Next path (some (skip_slashes (take_elem (c ∷ q)).1, take dirsiz (take_elem (c ∷ q)).0))
unfolding take_elem
skip_elem path c q e s = rw s (
  c ∷ (take_elem q).0,
  sym (components-skip_slashes path)
      ∙ ap components e
      ∙ ap nonempty (parts-take_elem (c ∷ q))
      ∙ rw s (
          ap (λ es. (c ∷ (take_elem q).0) ∷ es)
            (components-after q ∙ sym (components-skip_slashes (take_elem q).1))),
  refl,
  omega (
    arith,
    length-skip_slashes (take_elem q).1,
    length-take_elem q,
    length-skip_slashes path,
    ap length e,
  ),
)

-- skipelem takes the components of a path one by one: it answers null exactly where the path has
-- none, and else leaves a shorter path whose components are the remaining ones, and copies the
-- first 14 bytes of the component that it passed.
pub skipelem-Next : (path : List ℕ) → Next path (skipelem path)
unfolding skipelem
skipelem-Next path = go (skip_slashes path) refl
  where
    go : (p : List ℕ) → skip_slashes path ≡ p → Next path (skipelem path)
    go [] e = rw (e, skipelem) (sym (components-skip_slashes path) ∙ ap components e)
    go (c ∷ q) e = rw (e, skipelem) (skip_elem path c q e (skip_slashes_first path c q e))

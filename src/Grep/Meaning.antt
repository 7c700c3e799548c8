-- ===== src/Grep/Meaning.antt =====
-- What a pattern means, and that the matcher decides it.
use pcs_ii.Base.{
  ℕ, ◌≡◌, refl, ap, sym, subst, Bool, true, false, ◌&&◌, ◌||◌, Bool-cases, inl, inr, ◌⊎◌, ◌↔◌, List,
  [], ◌∷◌, ◌++◌, All, ◌==◌, if◌then◌else◌, arith,
}
use pcs_ii.Grep.{is_end, then_rest, matchstar, matchhere, match_from, match}

-- The parts of a pattern: one character, any number of one, and the end of the text.
pub data Item : Type 0 where
  one : ℕ → Item
  many : ℕ → Item
  at_end : Item

abbrev pub items : List ℕ → List Item
items [] = []
items (a ∷ []) = (if a == b'$' then at_end else one a) ∷ []
items (a ∷ b ∷ re) = if b == b'*' then many a ∷ items re else one a ∷ items (b ∷ re)

-- A dot stands for every character.
abbrev pub Is : ℕ → ℕ → Type 0
Is c t = (c ≡ b'.') ⊎ (c ≡ t)

-- Some beginning of the text is of this form.
abbrev pub Begins : List Item → List ℕ → Type 0
Begins [] text = Unit
Begins (at_end ∷ is) text = text ≡ []
Begins (one c ∷ is) text = (t : ℕ) × (rest : List ℕ) × (text ≡ t ∷ rest) × Is c t × Begins is rest
Begins (many c ∷ is) text =
    (run : List ℕ) × (rest : List ℕ) × (text ≡ run ++ rest) × All (Is c) run × Begins is rest

-- ^ ties the pattern to the beginning of the text.
abbrev pub Found : List ℕ → List ℕ → Type 0
Found re text =
    (before : List ℕ) × (rest : List ℕ) × (text ≡ before ++ rest) × Begins (items re) rest

abbrev pub Meaning : List ℕ → List ℕ → Type 0
Meaning [] text = Found [] text
Meaning (a ∷ re) text = if a == b'^' then Begins (items re) text else Found (a ∷ re) text

dot_or_equal : (c t : ℕ) → ((c == b'.' || c == t) ≡ true) ↔ Is c t
dot_or_equal c t = (λ h. ground (arith, h), λ h. ground (arith, h))

and_iff : (a b : Bool) → ((a && b) ≡ true) ↔ ((a ≡ true) × (b ≡ true))
and_iff true b = (λ h. (refl, h), λ h. h.1)
and_iff false b = (λ h. cc, λ h. cc)

or_iff : (a b : Bool) → ((a || b) ≡ true) ↔ ((a ≡ true) ⊎ (b ≡ true))
or_iff true b = (λ h. inl refl, λ h. refl)
or_iff false b = (λ h. inr h, λ h. elim h [ inl x ↦ cc | inr y ↦ y ])

then_rest_iff :
    (c : ℕ) (is : List Item) (rest : List ℕ → Bool) (text : List ℕ)
    → ((ts : List ℕ) → (rest ts ≡ true) ↔ Begins is ts)
    → (then_rest c rest text ≡ true) ↔ Begins (one c ∷ is) text
then_rest_iff c is rest [] h = (λ e. cc, λ (t, ts, e, i, b). cc)
then_rest_iff c is rest (t ∷ ts) h = (
  λ e.
      let (x, y) = (and_iff (c == b'.' || c == t) (rest ts)).0 e in
      (t, ts, refl, (dot_or_equal c t).0 x, (h ts).0 y),
  λ (t', ts', e, i, b).
      let same : t' ≡ t = cc in
      let tail : ts' ≡ ts = cc in
      (and_iff (c == b'.' || c == t) (rest ts)).1
        ((dot_or_equal c t).1 (subst (Is c) same i), (h ts).1 (subst (Begins is) tail b)),
)

-- The other order of the two tests of matchstar.
equal_or_dot : (c t : ℕ) → ((t == c || c == b'.') ≡ true) ↔ Is c t
equal_or_dot c t = (λ h. ground (arith, h), λ h. ground (arith, h))

matchstar_sound :
    (c : ℕ) (is : List Item) (rest : List ℕ → Bool) (text : List ℕ)
    → ((ts : List ℕ) → (rest ts ≡ true) ↔ Begins is ts)
    → matchstar c rest text ≡ true
    → Begins (many c ∷ is) text
unfolding matchstar
matchstar_sound c is rest [] h e = ([], [], refl, tt, (h []).0 e)
matchstar_sound c is rest (t ∷ ts) h e =
    elim ((or_iff (rest (t ∷ ts)) ((t == c || c == b'.') && matchstar c rest ts)).0 e) [
      | inl x ↦ ([], t ∷ ts, refl, tt, (h (t ∷ ts)).0 x)
      | inr x ↦
          let (y, z) = (and_iff (t == c || c == b'.') (matchstar c rest ts)).0 x in
          let (run, us, d, a, b) = matchstar_sound c is rest ts h z in
          (t ∷ run, us, ap (λ xs. t ∷ xs) d, ((equal_or_dot c t).0 y, a), b)
    ]

matchstar_complete :
    (c : ℕ) (is : List Item) (rest : List ℕ → Bool) (run text us : List ℕ)
    → ((ts : List ℕ) → (rest ts ≡ true) ↔ Begins is ts)
    → text ≡ run ++ us
    → All (Is c) run
    → Begins is us
    → matchstar c rest text ≡ true
unfolding matchstar
matchstar_complete c is rest [] [] us h e a b = (h []).1 (subst (Begins is) (sym e) b)
matchstar_complete c is rest [] (t ∷ ts) us h e a b =
    (or_iff (rest (t ∷ ts)) ((t == c || c == b'.') && matchstar c rest ts)).1
      (inl ((h (t ∷ ts)).1 (subst (Begins is) (sym e) b)))
matchstar_complete c is rest (x ∷ run) [] us h e a b = cc
matchstar_complete c is rest (x ∷ run) (t ∷ ts) us h e a b =
    let same : x ≡ t = cc in
    let tail : ts ≡ run ++ us = cc in
    (or_iff (rest (t ∷ ts)) ((t == c || c == b'.') && matchstar c rest ts)).1 (
      inr (
        (and_iff (t == c || c == b'.') (matchstar c rest ts)).1 (
          (equal_or_dot c t).1 (subst (Is c) same a.0),
          matchstar_complete c is rest run ts us h tail a.1 b,
        )))

is_end_iff : (text : List ℕ) → (is_end text ≡ true) ↔ (text ≡ [])
is_end_iff [] = (λ e. refl, λ e. refl)
is_end_iff (t ∷ ts) = (λ e. cc, λ e. cc)

matchhere_iff : (re text : List ℕ) → (matchhere re text ≡ true) ↔ Begins (items re) text
unfolding matchhere
matchhere_iff [] text = (λ e. tt, λ e. refl)
matchhere_iff (a ∷ []) text = elim (Bool-cases (a == b'$')) [
  | inl d ↦ rw d (is_end_iff text)
  | inr d ↦ rw d (then_rest_iff a [] (matchhere []) text (λ ts. (λ e. tt, λ e. refl)))
]
matchhere_iff (a ∷ b ∷ re) text =
    let after = λ (ts : List ℕ). matchhere_iff re ts in
    let next = λ (ts : List ℕ). matchhere_iff (b ∷ re) ts in
    elim (Bool-cases (b == b'*')) [
      | inl d ↦ rw d (
        matchstar_sound a (items re) (matchhere re) text after,
        λ (run, us, e, x, y).
            matchstar_complete a (items re) (matchhere re) run text us after e x y,
      )
      | inr d ↦ rw d (then_rest_iff a (items (b ∷ re)) (matchhere (b ∷ re)) text next)
    ]

match_from_sound : (re text : List ℕ) → match_from re text ≡ true → Found re text
unfolding match_from
match_from_sound re [] e = ([], [], refl, (matchhere_iff re []).0 e)
match_from_sound re (t ∷ ts) e = elim ((or_iff (matchhere re (t ∷ ts)) (match_from re ts)).0 e) [
  | inl x ↦ ([], t ∷ ts, refl, (matchhere_iff re (t ∷ ts)).0 x)
  | inr x ↦
      let (before, rest, d, b) = match_from_sound re ts x in
      (t ∷ before, rest, ap (λ xs. t ∷ xs) d, b)
]

match_from_complete :
    (re before text rest : List ℕ)
    → text ≡ before ++ rest
    → Begins (items re) rest
    → match_from re text ≡ true
unfolding match_from
match_from_complete re [] [] rest e b =
    (matchhere_iff re []).1 (subst (Begins (items re)) (sym e) b)
match_from_complete re [] (t ∷ ts) rest e b =
    (or_iff (matchhere re (t ∷ ts)) (match_from re ts)).1
      (inl ((matchhere_iff re (t ∷ ts)).1 (subst (Begins (items re)) (sym e) b)))
match_from_complete re (x ∷ before) [] rest e b = cc
match_from_complete re (x ∷ before) (t ∷ ts) rest e b =
    let tail : ts ≡ before ++ rest = cc in
    (or_iff (matchhere re (t ∷ ts)) (match_from re ts)).1
      (inr (match_from_complete re before ts rest tail b))

-- The matcher answers true exactly where the pattern, read as a list of its parts, occurs in the
-- text: at its beginning, if the pattern starts with ^, and else anywhere.
pub match-Meaning : (re text : List ℕ) → (match re text ≡ true) ↔ Meaning re text
unfolding match
match-Meaning [] text =
    (match_from_sound [] text, λ (before, rest, e, b). match_from_complete [] before text rest e b)
match-Meaning (a ∷ re) text = elim (Bool-cases (a == b'^')) [
  | inl h ↦ rw h (matchhere_iff re text)
  | inr h ↦ rw h (
    match_from_sound (a ∷ re) text,
    λ (before, rest, e, b). match_from_complete (a ∷ re) before text rest e b,
  )
]

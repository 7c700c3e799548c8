-- ===== src/Base/Lists.antt =====
-- Lists measured and indexed by native numbers, under the library's names.
use Prim.Native.Nat.{ℕ, zero, suc, ◌+◌, ◌-◌, ◌<◌, ◌≤◌, min}
use mathlib.Core.Path.{◌≡◌, refl, ap, ◌∙◌}
use mathlib.Core.Logic.{◌≢◌}
use mathlib.Core.List.{List, [], ◌∷◌, ◌++◌, map}
use mathlib.Core.Option.{Option, none, some}
use native.Mathlib.Omega.{arith}

zero-sub : (n : ℕ) → zero - n ≡ zero
zero-sub n = omega arith

module _ {ℓ} {A : Type ℓ} where
  abbrev pub length : List A → ℕ
  length [] = 0
  length (x ∷ xs) = suc (length xs)

  abbrev pub get_elem? : List A → ℕ → Option A
  get_elem? [] i = none
  get_elem? (x ∷ xs) zero = some x
  get_elem? (x ∷ xs) (suc i) = get_elem? xs i

  abbrev pub get_or : List A → ℕ → A → A
  get_or [] i d = d
  get_or (x ∷ xs) zero d = x
  get_or (x ∷ xs) (suc i) d = get_or xs i d

  -- A write out of bounds changes nothing.
  abbrev pub set : List A → ℕ → A → List A
  set [] i v = []
  set (x ∷ xs) zero v = v ∷ xs
  set (x ∷ xs) (suc i) v = x ∷ set xs i v

  -- A change of one element.
  abbrev pub modify : List A → ℕ → (A → A) → List A
  modify [] i f = []
  modify (x ∷ xs) zero f = f x ∷ xs
  modify (x ∷ xs) (suc i) f = x ∷ modify xs i f

  abbrev pub take : ℕ → List A → List A
  take zero xs = []
  take (suc n) [] = []
  take (suc n) (x ∷ xs) = x ∷ take n xs

  abbrev pub drop : ℕ → List A → List A
  drop zero xs = xs
  drop (suc n) [] = []
  drop (suc n) (x ∷ xs) = drop n xs

  abbrev pub replicate : ℕ → A → List A
  replicate zero a = []
  replicate (suc n) a = a ∷ replicate n a

  -- A predicate on every element.
  abbrev pub All {κ} : (A → Type κ) → List A → Type κ
  All P [] = Unit
  All P (x ∷ xs) = P x × All P xs

module _ {ℓ} {A : Type ℓ} where
  pub length-append : (xs ys : List A) → length (xs ++ ys) ≡ length xs + length ys
  length-append [] ys = omega arith
  length-append (x ∷ xs) ys = omega (arith, length-append xs ys)

  pub length-set : (xs : List A) (i : ℕ) (v : A) → length (set xs i v) ≡ length xs
  length-set [] i v = refl
  length-set (x ∷ xs) zero v = refl
  length-set (x ∷ xs) (suc i) v = ap suc (length-set xs i v)

  pub length-map {κ} : {B : Type κ} (xs : List A) (f : A → B) → length (map f xs) ≡ length xs
  length-map [] f = refl
  length-map (x ∷ xs) f = ap suc (length-map xs f)

  pub length-replicate : (n : ℕ) (a : A) → length (replicate n a) ≡ n
  length-replicate zero a = refl
  length-replicate (suc n) a = ap suc (length-replicate n a)

  pub get_elem?-set_self :
      (xs : List A) (i : ℕ) (v : A) → i < length xs → get_elem? (set xs i v) i ≡ some v
  get_elem?-set_self [] i v h = elim h [ ]
  get_elem?-set_self (x ∷ xs) zero v h = refl
  get_elem?-set_self (x ∷ xs) (suc i) v h = get_elem?-set_self xs i v (omega arith)

  pub get_elem?-set_known :
      (xs : List A) (i : ℕ) (x y : A) → get_elem? xs i ≡ some x → get_elem? (set xs i y) i ≡ some y
  get_elem?-set_known [] i x y e = cc
  get_elem?-set_known (_ ∷ xs) zero x y e = refl
  get_elem?-set_known (_ ∷ xs) (suc i) x y e = get_elem?-set_known xs i x y e

  pub get_elem?-set_ne :
      (xs : List A) {i j : ℕ} (v : A) → i ≢ j → get_elem? (set xs i v) j ≡ get_elem? xs j
  get_elem?-set_ne [] v h = refl
  get_elem?-set_ne (x ∷ xs) {i = zero} {j = zero} v h = absurd (h refl)
  get_elem?-set_ne (x ∷ xs) {i = zero} {j = suc j} v h = refl
  get_elem?-set_ne (x ∷ xs) {i = suc i} {j = zero} v h = refl
  get_elem?-set_ne (x ∷ xs) {i = suc i} {j = suc j} v h = get_elem?-set_ne xs v (λ e. h (ap suc e))

  pub get_elem?-modify_self :
      (xs : List A) (i : ℕ) (f : A → A) {x : A}
      → get_elem? xs i ≡ some x
      → get_elem? (modify xs i f) i ≡ some (f x)
  get_elem?-modify_self [] i f h = absurd (ground arith)
  get_elem?-modify_self (y ∷ ys) zero f h = ground arith
  get_elem?-modify_self (y ∷ ys) (suc i) f h = get_elem?-modify_self ys i f h

  pub get_elem?-modify_ne :
      (xs : List A) (i j : ℕ) (f : A → A) → i ≢ j → get_elem? (modify xs i f) j ≡ get_elem? xs j
  get_elem?-modify_ne [] i j f h = refl
  get_elem?-modify_ne (y ∷ ys) zero zero f h = absurd (h refl)
  get_elem?-modify_ne (y ∷ ys) zero (suc j) f h = refl
  get_elem?-modify_ne (y ∷ ys) (suc i) zero f h = refl
  get_elem?-modify_ne (y ∷ ys) (suc i) (suc j) f h =
      get_elem?-modify_ne ys i j f (λ e. h (ap suc e))

  pub get_elem?-lt : (xs : List A) (i : ℕ) {v : A} → get_elem? xs i ≡ some v → i < length xs
  get_elem?-lt [] i h = ground arith
  get_elem?-lt (x ∷ xs) zero h = omega arith
  get_elem?-lt (x ∷ xs) (suc i) h = omega (arith, get_elem?-lt xs i h)

  pub get_or-set_self :
      (xs : List A) (i : ℕ) (v d : A) → i < length xs → get_or (set xs i v) i d ≡ v
  get_or-set_self [] i v d h = absurd (omega arith)
  get_or-set_self (x ∷ xs) zero v d h = refl
  get_or-set_self (x ∷ xs) (suc i) v d h = get_or-set_self xs i v d (omega arith)

  pub get_or-set_ne :
      (xs : List A) {i j : ℕ} (v d : A) → i ≢ j → get_or (set xs i v) j d ≡ get_or xs j d
  get_or-set_ne [] v d h = refl
  get_or-set_ne (x ∷ xs) {i = zero} {j = zero} v d h = absurd (h refl)
  get_or-set_ne (x ∷ xs) {i = zero} {j = suc j} v d h = refl
  get_or-set_ne (x ∷ xs) {i = suc i} {j = zero} v d h = refl
  get_or-set_ne (x ∷ xs) {i = suc i} {j = suc j} v d h = get_or-set_ne xs v d (λ e. h (ap suc e))

  pub All-map {κ μ} :
      {P : A → Type κ} {Q : A → Type μ} (xs : List A) → ((x : A) → P x → Q x) → All P xs → All Q xs
  All-map [] f h = tt
  All-map (x ∷ xs) f h = (f x h.0, All-map xs f h.1)

  pub take-append :
      (k : ℕ) (xs ys : List A) → take k (xs ++ ys) ≡ take k xs ++ take (k - length xs) ys
  take-append zero xs ys = rw (zero-sub (length xs)) refl
  take-append (suc k) [] ys = ap (λ n. take n ys) {x = suc k} {y = suc k - 0} (omega arith)
  take-append (suc k) (x ∷ xs) ys =
      ap (λ zs. x ∷ zs)
        (take-append k xs ys
          ∙ ap (λ n. take k xs ++ take n ys) {x = k - length xs} {y = suc k - suc (length xs)}
              (omega arith))

  pub take_all : (k : ℕ) (xs : List A) → length xs ≤ k → take k xs ≡ xs
  take_all zero [] h = refl
  take_all (suc k) [] h = refl
  take_all zero (x ∷ xs) h = absurd (omega arith)
  take_all (suc k) (x ∷ xs) h = ap (λ zs. x ∷ zs) (take_all k xs (omega arith))

  pub length-take : (k : ℕ) (xs : List A) → length (take k xs) ≡ min k (length xs)
  length-take zero xs = omega arith
  length-take (suc k) [] = omega arith
  length-take (suc k) (x ∷ xs) = omega (arith, length-take k xs)

  pub length-drop : (k : ℕ) (xs : List A) → length (drop k xs) ≡ length xs - k
  length-drop zero xs = omega arith
  length-drop (suc k) [] = omega arith
  length-drop (suc k) (x ∷ xs) = omega (arith, length-drop k xs)

  pub get_or-take :
      (k : ℕ) (xs : List A) (i : ℕ) (d : A) → i < k → get_or (take k xs) i d ≡ get_or xs i d
  get_or-take zero xs i d h = elim h [ ]
  get_or-take (suc k) [] i d h = refl
  get_or-take (suc k) (x ∷ xs) zero d h = refl
  get_or-take (suc k) (x ∷ xs) (suc i) d h = get_or-take k xs i d (omega arith)

  pub get_or-drop :
      (k : ℕ) (xs : List A) (i : ℕ) (d : A) → get_or (drop k xs) i d ≡ get_or xs (k + i) d
  get_or-drop zero xs i d = ap (λ j. get_or xs j d) {x = i} {y = 0 + i} (omega arith)
  get_or-drop (suc k) [] i d = refl
  get_or-drop (suc k) (x ∷ xs) i d =
      get_or-drop k xs i d
      ∙ ap (λ j. get_or (x ∷ xs) j d) {x = suc (k + i)} {y = suc k + i} (omega arith)

  pub take-map {κ} :
      {B : Type κ} (f : A → B) (k : ℕ) (xs : List A) → take k (map f xs) ≡ map f (take k xs)
  take-map f zero xs = refl
  take-map f (suc k) [] = refl
  take-map f (suc k) (x ∷ xs) = ap (λ zs. f x ∷ zs) (take-map f k xs)

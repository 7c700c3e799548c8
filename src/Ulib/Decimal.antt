-- ===== src/Ulib/Decimal.antt =====
-- atoi reads what printf's %d writes.
use pcs_ii.Base.{
  ℕ, zero, suc, ◌+◌, ◌-◌, ◌*◌, ◌/◌, ◌%◌, ◌^◌, ◌<◌, ◌≡◌, refl, ap, ◌∙◌, true, ◌&&◌, Bool-cases, inl,
  inr, List, [], ◌∷◌, get_or, leb, lt→leb, ◌==◌, arith, sweep, sweep_lem,
}
use pcs_ii.Printf.{digits, print_digits, printint}
use pcs_ii.Ulib.{is_digit, atoi_from, atoi}

-- The digit of a number below ten, and back.
digit_table : sweep (λ d. is_digit (get_or digits d 0) && get_or digits d 0 == d + 48) 10 ≡ true
unfolding sweep
digit_table = refl

digit_eq : (d : ℕ) → d < 10 → get_or digits d 0 ≡ d + 48
digit_eq d h = ground (
  arith,
  sweep_lem (λ d. is_digit (get_or digits d 0) && get_or digits d 0 == d + 48) 10 d h digit_table,
)

-- One more digit in front of what is read.
atoi_from-digit :
    (n d : ℕ) (s : List ℕ)
    → d < 10
    → n * 10 + d < 2 ^ 32
    → atoi_from n (get_or digits d 0 ∷ s) ≡ atoi_from (n * 10 + d) s
unfolding atoi_from
atoi_from-digit n d s h b =
    let c : (n * 10 + (d + 48) - 48) % 2 ^ 32 ≡ n * 10 + d = omega arith in
    let e : (leb 48 (d + 48) && leb (d + 48) 57) ≡ true = ground arith in
    rw (digit_eq d h) (rw (e, c) refl)

abbrev ten_to : ℕ → ℕ
ten_to zero = 1
ten_to (suc f) = ten_to f * 10

-- The digits of x, put in front of the text, are read as x.
atoi_from-print_digits :
    (f x : ℕ) (out : List ℕ)
    → x < 2 ^ 32
    → x < ten_to f
    → atoi_from 0 (print_digits f x 10 out) ≡ atoi_from x out
unfolding print_digits
atoi_from-print_digits zero x out h b = ap (λ (n : ℕ). atoi_from n out) (omega arith)
atoi_from-print_digits (suc f) x out h b = elim (Bool-cases (x / 10 == 0)) [
  | inl e ↦ rw e (
      atoi_from-digit 0 (x % 10) out (omega arith) (omega arith)
      ∙ ap (λ (n : ℕ). atoi_from n out) (ground arith))
  | inr e ↦ rw e (
      atoi_from-print_digits f (x / 10) (get_or digits (x % 10) 0 ∷ out) (omega arith) (omega arith)
      ∙ atoi_from-digit (x / 10) (x % 10) out (omega arith) (omega arith)
      ∙ ap (λ (n : ℕ). atoi_from n out) {x = x / 10 * 10 + x % 10} {y = x} (omega arith))
]

-- For a number that an int can hold and that is not negative, atoi of what %d prints is the number.
pub atoi-printint : (x : ℕ) → x < 2 ^ 31 → atoi (printint x 10 true) ≡ x
unfolding atoi printint atoi_from
atoi-printint x h =
    rw (lt→leb (2 ^ 31) x h) (atoi_from-print_digits 32 x [] (omega arith) (omega arith))

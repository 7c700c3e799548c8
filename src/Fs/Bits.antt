-- ===== src/Fs/Bits.antt =====
-- The bits of a byte of the bitmap: adding a power of two sets a bit that is clear.
use native.Mathlib.Nat.{div-div-eq-div-mul}
use native.Mathlib.Omega.{pow_step}
use pcs_ii.Base.{ℕ, zero, suc, ◌+◌, ◌/◌, ◌%◌, ◌^◌, ◌≡◌, ◌≢◌, refl, ap, ◌∙◌, sym, arith}

abbrev pub digit : ℕ → ℕ → ℕ
digit x k = x / 2 ^ k % 2

digit-suc : (x k : ℕ) → digit x (suc k) ≡ digit (x / 2) k
digit-suc x k =
    ap (λ y. y % 2) (ap (λ y. x / y) (pow_step 2 k) ∙ sym (div-div-eq-div-mul x 2 (2 ^ k)))

half-add : (x k : ℕ) → (x + 2 ^ suc k) / 2 ≡ x / 2 + 2 ^ k
half-add x k = omega (arith, pow_step 2 k)

pub digit-set : (k x : ℕ) → digit x k ≡ 0 → digit (x + 2 ^ k) k ≡ 1
digit-set zero x h = omega (arith, h)
digit-set (suc k) x h =
    digit-suc (x + 2 ^ suc k) k
    ∙ ap (λ y. digit y k) (half-add x k)
    ∙ digit-set k (x / 2) (sym (digit-suc x k) ∙ h)

pub digit-other : (k l x : ℕ) → digit x k ≡ 0 → k ≢ l → digit (x + 2 ^ k) l ≡ digit x l
digit-other zero zero x h n = absurd (n refl)
digit-other zero (suc l) x h n =
    digit-suc (x + 1) l ∙ ap (λ y. digit y l) (omega (arith, h)) ∙ sym (digit-suc x l)
digit-other (suc k) zero x h n = omega (arith, pow_step 2 k)
digit-other (suc k) (suc l) x h n =
    digit-suc (x + 2 ^ suc k) l
    ∙ ap (λ y. digit y l) (half-add x k)
    ∙ digit-other k l (x / 2) (sym (digit-suc x k) ∙ h) (λ e. n (ap suc e))
    ∙ sym (digit-suc x l)

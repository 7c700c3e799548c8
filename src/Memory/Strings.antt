-- ===== src/Memory/Strings.antt =====
-- The string routines of string.c: what they copy, where they end, what they leave alone.
use pcs_ii.Base.{ℕ, zero, suc, ◌+◌, ◌-◌, ◌≤◌, ◌<◌, ◌≡◌, ◌≢◌, some, arith}
use pcs_ii.Memory.{Memory, strlen_from, strlen}

-- The first NUL of the string at `t` stands at index `k`.
pub record EndsAt (m : Memory) (t k : ℕ) : Type 0 where
  pub nul : m (t + k) ≡ 0
  pub before : (i : ℕ) → i < k → m (t + i) ≢ 0

strlen_from-eq :
    (f : ℕ) (m : Memory) (s n k : ℕ)
    → n ≤ k
    → k - n < f
    → EndsAt m s k
    → strlen_from f m s n ≡ some k
unfolding strlen_from
strlen_from-eq zero m s n k h g e = absurd (omega arith)
strlen_from-eq (suc f) m s n k h g e =
    ground (arith, e.nul, e.before n, strlen_from-eq f m s (n + 1) k)

-- With more fuel than the length, strlen returns the index of the first NUL.
pub strlen-eq : (f : ℕ) (m : Memory) (s k : ℕ) → k < f → EndsAt m s k → strlen f m s ≡ some k
unfolding strlen
strlen-eq f m s k h e = strlen_from-eq f m s 0 k (omega arith) (omega arith) e

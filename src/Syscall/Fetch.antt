-- ===== src/Syscall/Fetch.antt =====
-- What a system call may read of its caller: only memory of the process.
use pcs_ii.Base.{
  ==_iff, leb→le, ℕ, zero, suc, ◌+◌, ◌-◌, ◌*◌, ◌%◌, ◌^◌, ◌≤◌, ◌<◌, ◌≡◌, ◌≢◌, ap, ◌∙◌, Bool-cases,
  Option-cases, inl, inr, Option, none, some, leb, ◌==◌, arith,
}
use pcs_ii.Memory.{Memory}
use pcs_ii.Memory.Strings.{EndsAt}
use pcs_ii.Mmu.{kernbase}
use pcs_ii.Syscall.{user_word, fetchint, scan_nul, fetchstr, argint, argptr}

-- For a process below KERNBASE, argptr accepts a pointer only if the argument word and the whole
-- block of `size` bytes lie in the process, also where the 32-bit sums of the checks wrap around.
pub argptr_in_bounds :
    (m : Memory) (sz esp n size p : ℕ)
    → sz ≤ kernbase
    → size < 2 ^ 32
    → argptr m sz esp n size ≡ some p
    → (p + size ≤ sz)
      × (size < 2 ^ 31)
      × ((esp + 4 + 4 * n) % 2 ^ 32 + 4 ≤ sz)
      × (p ≡ user_word m ((esp + 4 + 4 * n) % 2 ^ 32))
unfolding argptr argint fetchint
argptr_in_bounds m sz esp n size p h s e = ground arith

EndsAt-suc : (m : Memory) (s j : ℕ) → m s ≢ 0 → EndsAt m (s + 1) j → EndsAt m s (suc j)
EndsAt-suc m s j h e = record { nul = ap m (omega arith) ∙ e.nul; before = go }
  where
    go : (i : ℕ) → i < suc j → m (s + i) ≢ 0
    go zero l z = h (ap m (omega arith) ∙ z)
    go (suc i) l z = e.before i (omega arith) (ap m (omega arith) ∙ z)

scan_nul-EndsAt :
    (k : ℕ) (m : Memory) (s len r : ℕ)
    → scan_nul k m s len ≡ some r
    → (j : ℕ) × (r ≡ len + j) × (j < k) × EndsAt m s j
unfolding scan_nul
scan_nul-EndsAt zero m s len r h = absurd (ground arith)
scan_nul-EndsAt (suc k) m s len r h = elim (Bool-cases (m s == 0)) [
  | inl z ↦ (
    0,
    ground arith,
    omega arith,
    record {
      nul = ap m (omega arith) ∙ (==_iff (m s) 0).0 z;
      before = λ i l. absurd (omega arith);
    },
  )
  | inr z ↦
      let (j, a, b, c) = scan_nul-EndsAt k m (s + 1) (len + 1) r (ground arith) in
      (suc j, omega arith, omega arith, EndsAt-suc m s j (ground arith) c)
]

scan_nul-none :
    (k : ℕ) (m : Memory) (s len : ℕ) → scan_nul k m s len ≡ none → (j : ℕ) → j < k → m (s + j) ≢ 0
unfolding scan_nul
scan_nul-none zero m s len h j l z = absurd (omega arith)
scan_nul-none (suc k) m s len h zero l z = absurd (ground (arith, ap m start))
  where
    start : s + 0 ≡ s
    start = omega arith
scan_nul-none (suc k) m s len h (suc j) l z =
    scan_nul-none k m (s + 1) (len + 1) (ground arith) j (omega arith) (ap m (omega arith) ∙ z)

-- What fetchstr reports of the string at `addr`.
abbrev pub FetchSpec : Memory → ℕ → ℕ → Option ℕ → Type 0
FetchSpec m sz addr none = (j : ℕ) → addr + j < sz → m (addr + j) ≢ 0
FetchSpec m sz addr (some len) = (addr + len < sz) × EndsAt m addr len

-- fetchstr returns the length of the string if its first NUL stands inside the process, and fails
-- exactly if no byte from the address up to the end of the process is NUL.
pub fetchstr-FetchSpec : (m : Memory) (sz addr : ℕ) → FetchSpec m sz addr (fetchstr m sz addr)
unfolding fetchstr
fetchstr-FetchSpec m sz addr = elim (Bool-cases (leb sz addr)) [
  | inl h ↦ rw h (λ j l. absurd (omega (arith, leb→le sz addr h)))
  | inr h ↦ elim (Option-cases (scan_nul (sz - addr) m addr 0)) [
    | inl e ↦ rw (h, e) (λ j l. scan_nul-none (sz - addr) m addr 0 e j (omega arith))
    | inr (len, e) ↦
        let (j, a, b, c) = scan_nul-EndsAt (sz - addr) m addr 0 len e in
        let same : len ≡ j = omega arith in rw (h, e) (omega arith, rw same c)
  ]
]

-- ===== src/Mmu.antt =====
-- The address macros of mmu.h and memlayout.h, on 32-bit unsigned integers.
-- `x & ~(2^k - 1)` is `x / 2^k * 2^k`, and `x & (2^k - 1)` is `x % 2^k`.
use pcs_ii.Base.{ℕ, ◌+◌, ◌-◌, ◌*◌, ◌/◌, ◌%◌, ◌^◌}

abbrev pub kernbase : ℕ
kernbase = 0x80000000

abbrev pub phystop : ℕ
phystop = 0xE000000

abbrev pub v2p : ℕ → ℕ
v2p a = (a + (2 ^ 32 - kernbase)) % 2 ^ 32

abbrev pub p2v : ℕ → ℕ
p2v a = (a + kernbase) % 2 ^ 32

abbrev pub pg_round_up : ℕ → ℕ
pg_round_up sz = (sz + 4095) % 2 ^ 32 / 4096 * 4096

abbrev pub pg_round_down : ℕ → ℕ
pg_round_down a = a / 4096 * 4096

-- PDX(va), PTX(va), PGADDR(d, t, o)
abbrev pub pdx : ℕ → ℕ
pdx va = va / 2 ^ 22 % 1024

abbrev pub ptx : ℕ → ℕ
ptx va = va / 2 ^ 12 % 1024

abbrev pub pte_addr : ℕ → ℕ
pte_addr pte = pte / 4096 * 4096

abbrev pub pte_flags : ℕ → ℕ
pte_flags pte = pte % 4096

-- ===== src/Kalloc.antt =====
-- kalloc.c, the allocator of physical pages. The free list is threaded through the pages
-- themselves, in the memory of the state. `end`, the first address after the kernel, is the
-- linker's and so a parameter. A routine runs whole: what kmem.lock brackets is one step.
pub mod FreeList
pub mod Laws
mod Tests
use pcs_ii.Base.{
  ℕ, zero, suc, ◌+◌, ◌*◌, ◌/◌, ◌%◌, ◌^◌, Bool, true, false, ◌||◌, not, ltb, leb, ◌==◌,
  if◌then◌else◌,
}
use pcs_ii.Base.Outcome.{Outcome, ret, panic, ◌>>=◌}
use pcs_ii.Memory.{Memory, store_word, memset}
use pcs_ii.Mmu.{v2p, phystop, pg_round_up}

-- `kmem`, and the memory that it hands out. 0 is the null pointer.
pub record Kmem : Type 0 where
  pub use_lock : Bool
  pub freelist : ℕ
  pub mem : Memory

-- The word at an address, the low byte first.
abbrev pub load_word : Memory → ℕ → ℕ
load_word m a = m a + m (a + 1) * 2 ^ 8 + m (a + 2) * 2 ^ 16 + m (a + 3) * 2 ^ 24

unfoldable pub kfree : ℕ → Kmem → ℕ → Outcome Kmem
kfree end k v =
    if not (v % 4096 == 0) || ltb v end || leb phystop (v2p v)
    then panic
    else ret (record k { mem = store_word (memset k.mem v 1 4096) v k.freelist; freelist = v })

-- The page, or 0.
unfoldable pub kalloc : Kmem → ℕ × Kmem
kalloc k =
    if k.freelist == 0
    then (0, k)
    else (k.freelist, record k { freelist = load_word k.mem k.freelist })

-- The loop of freerange, with fuel for its rounds.
unfoldable pub free_pages : ℕ → ℕ → Kmem → ℕ → ℕ → Outcome Kmem
free_pages zero end k p vend = ret k
free_pages (suc f) end k p vend =
    let rest = kfree end k p >>= (λ k'. free_pages f end k' ((p + 4096) % 2 ^ 32) vend) in
    if leb ((p + 4096) % 2 ^ 32) vend then rest else ret k

unfoldable pub freerange : ℕ → Kmem → ℕ → ℕ → Outcome Kmem
freerange end k vstart vend = free_pages (suc (vend / 4096)) end k (pg_round_up vstart) vend

unfoldable pub kinit1 : ℕ → Kmem → ℕ → ℕ → Outcome Kmem
kinit1 end k vstart vend = freerange end (record k { use_lock = false }) vstart vend

unfoldable pub kinit2 : ℕ → Kmem → ℕ → ℕ → Outcome Kmem
kinit2 end k vstart vend = do k' ← freerange end k vstart vend; ret (record k' { use_lock = true })

-- ===== src/Kalloc/FreeList.antt =====
-- The free list of kalloc.c as a list of pages, and what a write to one page leaves of the others.
use pcs_ii.Base.{ℕ, ◌+◌, ◌%◌, ◌^◌, ◌≤◌, ◌<◌, ◌≡◌, ◌≢◌, ◌⊎◌, List, [], ◌∷◌, All, arith}
use pcs_ii.Memory.{Memory, store_word, memset}
use pcs_ii.Memory.Fill.{memset-filled}
use pcs_ii.Mmu.{kernbase, phystop}
use pcs_ii.Kalloc.{Kmem, load_word}

-- Every cell holds a byte.
abbrev pub IsBytes : Memory → Type 0
IsBytes m = (a : ℕ) → m a < 256

-- The pages that `r->next` links from `p` on, up to the null pointer.
abbrev pub Chain : Memory → ℕ → List ℕ → Type 0
Chain m p [] = p ≡ 0
Chain m p (x ∷ xs) = (p ≡ x) × Chain m (load_word m x) xs

-- A page that kfree takes.
pub record IsPage (end v : ℕ) : Type 0 where
  pub aligned : v % 4096 ≡ 0
  pub above : end ≤ v
  pub below : v < kernbase + phystop

abbrev pub Distinct : List ℕ → Type 0
Distinct [] = Unit {0}
Distinct (x ∷ xs) = All (λ y. y ≢ x) xs × Distinct xs

-- The free list is the given pages, each once.
pub record Holds (end : ℕ) (k : Kmem) (pages : List ℕ) : Type 0 where
  pub chain : Chain k.mem k.freelist pages
  pub are_pages : All (IsPage end) pages
  pub distinct : Distinct pages

pub load_word-store_word : (m : Memory) (a w : ℕ) → w < 2 ^ 32 → load_word (store_word m a w) a ≡ w
load_word-store_word m a w h = ground arith

abbrev after_free : Memory → ℕ → ℕ → Memory
after_free m v w = store_word (memset m v 1 4096) v w

-- Freeing a page changes no byte of another page.
byte-after_free : (m : Memory) (v w a : ℕ) → (a < v) ⊎ (v + 4096 ≤ a) → after_free m v w a ≡ m a
byte-after_free m v w a h = ground (arith, memset-filled m v 1 4096 a)

word-after_free :
    (m : Memory) (v w x : ℕ)
    → (x + 4096 ≤ v) ⊎ (v + 4096 ≤ x)
    → load_word (after_free m v w) x ≡ load_word m x
word-after_free m v w x h = omega (
  arith,
  byte-after_free m v w x (omega arith),
  byte-after_free m v w (x + 1) (omega arith),
  byte-after_free m v w (x + 2) (omega arith),
  byte-after_free m v w (x + 3) (omega arith),
)

pub apart : (end x v : ℕ) → IsPage end x → v % 4096 ≡ 0 → x ≢ v → (x + 4096 ≤ v) ⊎ (v + 4096 ≤ x)
apart end x v p h n = omega (arith, p.aligned)

pub Chain-after_free :
    (end : ℕ) (m : Memory) (v w p : ℕ) (xs : List ℕ)
    → v % 4096 ≡ 0
    → All (IsPage end) xs
    → All (λ y. y ≢ v) xs
    → Chain m p xs
    → Chain (store_word (memset m v 1 4096) v w) p xs
Chain-after_free end m v w p [] h ps ns c = c
Chain-after_free end m v w p (x ∷ xs) h ps ns c = (
  c.0,
  rw (word-after_free m v w x (apart end x v ps.0 h ns.0))
      (Chain-after_free end m v w (load_word m x) xs h ps.1 ns.1 c.1),
)

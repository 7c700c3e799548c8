-- ===== src/Kalloc/Tests.antt =====
-- Runs of the allocator, for a kernel that ends 1 MB above KERNBASE.
use pcs_ii.Base.{ℕ, refl, ◌∷◌, [], arith, false}
use pcs_ii.Kalloc.{Kmem, freerange}
use pcs_ii.Kalloc.FreeList.{Holds}
use pcs_ii.Kalloc.Laws.{freerange-Freed, Freed}

-- 0x80100000
abbrev kernel_end : ℕ
kernel_end = 2148532224

abbrev empty : Kmem
empty = record { use_lock = false; freelist = 0; mem = λ _. 0 }

empty-Holds : Holds kernel_end empty []
empty-Holds = record { chain = refl; are_pages = tt; distinct = tt }

abbrev page : ℕ
page = 2148536320

freerange-Freed_example :
    Freed kernel_end empty
      (2148544512 ∷ 2148540416 ∷ page ∷ [])
      (freerange kernel_end empty 2148532225 2148548609)
freerange-Freed_example =
    freerange-Freed kernel_end empty 2148532225 2148548609 [] (omega arith) (omega arith)
      (omega arith) (omega arith) tt empty-Holds

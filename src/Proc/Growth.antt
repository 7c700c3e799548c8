-- ===== src/Proc/Growth.antt =====
-- growproc: the new size, and shrinking to nothing.
use pcs_ii.Base.{ℕ, suc, ◌+◌, ◌-◌, ◌%◌, ◌/◌, ◌^◌, ◌<◌, ◌≡◌, refl, false, arith, lt→leb}
use pcs_ii.Base.Int.{negsuc}
use pcs_ii.Base.Outcome.{ret}
use pcs_ii.Kalloc.{Kmem}
use pcs_ii.Vm.{Linker, deallocuvm, dealloc_from, pgsize}
use pcs_ii.Proc.{Proc, growproc}

deallocuvm_to_zero :
    (l : Linker) (m m' : Kmem) (pgdir sz : ℕ)
    → 0 < sz
    → dealloc_from (suc (sz / pgsize)) l m pgdir 0 sz ≡ ret m'
    → deallocuvm l m pgdir sz 0 ≡ ret (0, m')
unfolding deallocuvm
deallocuvm_to_zero l m m' pgdir sz h d = rw (lt→leb sz 0 h, d) refl

-- Shrinking a process of less than 2^31 bytes by exactly its size frees its pages and then reports
-- failure: where the loop of deallocuvm does not panic, growproc returns -1 with the size kept, and
-- the memory is as that loop left it.
pub growproc_to_zero :
    (l : Linker) (m m' : Kmem) (p : Proc) (n : ℕ)
    → p.sz ≡ suc n
    → p.sz < 2 ^ 31
    → dealloc_from (suc (p.sz / pgsize)) l m p.pgdir 0 p.sz ≡ ret m'
    → growproc l m p (negsuc n) ≡ ret (false, m', p)
unfolding growproc
growproc_to_zero l m m' p n e b d =
    let z : (p.sz + 2 ^ 32 - suc n) % 2 ^ 32 ≡ 0 = omega arith in
    rw (z, deallocuvm_to_zero l m m' p.pgdir p.sz (omega arith) d) refl

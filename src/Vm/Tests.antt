-- ===== src/Vm/Tests.antt =====
-- A run of the page count: of two pages the first is mapped, through the table at physical address 0.
use pcs_ii.Base.{ℕ, ◌+◌, ◌/◌, ◌≡◌, refl, arith, some, ◌==◌, if◌then◌else◌}
use pcs_ii.Memory.{Memory}
use pcs_ii.Mmu.{kernbase}
use pcs_ii.Vm.{sys_getptentries, count_from, is_mapped}
use pcs_ii.Vm.Entries.{IsMapped, HowMany, sys_getptentries-HowMany}

one_page : Memory
one_page a = if a == 4096 then 1 else if a == kernbase then 1 else 0

counts_one : sys_getptentries 3 one_page 4096 5000 ≡ some 1
unfolding sys_getptentries count_from is_mapped one_page
counts_one = refl

sys_getptentries-HowMany_example :
    (c : ℕ) × (sys_getptentries 3 one_page 4096 5000 ≡ some c)
    × HowMany (IsMapped one_page 4096) 0 ((5000 + 4095) / 4096) c
sys_getptentries-HowMany_example =
    sys_getptentries-HowMany 3 one_page 4096 5000 (omega arith) (omega arith)

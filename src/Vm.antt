-- ===== src/Vm.antt =====
-- vm.c: page tables in physical memory, and sys_getmemsize, sys_getvpages, sys_getptentries of
-- sysproc.c, which read them. Pointers to page tables are kernel addresses.
pub mod Entries
mod Tests
use Prim.Native.Nat.{bit_and, bit_or}
use pcs_ii.Base.{
  ℕ, zero, suc, ◌+◌, ◌-◌, ◌*◌, ◌/◌, ◌%◌, ◌^◌, Bool, true, false, not, ◌&&◌, ◌||◌, List, [], ◌∷◌,
  Option, none, some, ltb, leb, ◌==◌, if◌then◌else◌,
}
use pcs_ii.Base.Outcome.{Outcome, ret, panic, ◌>>=◌}
use pcs_ii.Memory.{Memory, store_word, memset, memmove}
use pcs_ii.Mmu.{
  kernbase, phystop, v2p, p2v, pg_round_up, pg_round_down, pdx, ptx, pte_addr, pte_flags,
}
use pcs_ii.Kalloc.{Kmem, load_word, kfree, kalloc}

abbrev pub pgsize : ℕ
pgsize = 4096

-- The addresses that the linker gives: `end`, `data` where the kernel's data begins, and the code
-- of trapret and forkret.
pub record Linker : Type 0 where
  pub end : ℕ
  pub data_start : ℕ
  pub trapret : ℕ
  pub forkret : ℕ

-- *pte & PTE_P, *pte & PTE_U
abbrev pub is_present : ℕ → Bool
is_present pte = not (pte % 2 == 0)

abbrev pub is_user : ℕ → Bool
is_user pte = not (pte / 4 % 2 == 0)

-- The address of the entry for `va`, or 0.
unfoldable pub walkpgdir : Kmem → ℕ → ℕ → Bool → ℕ × Kmem
walkpgdir k pgdir va alloc =
    let pde = pgdir + 4 * pdx va in
    let (pgtab, k') = kalloc k in
    if is_present (load_word k.mem pde)
    then (p2v (pte_addr (load_word k.mem pde)) + 4 * ptx va, k)
    else if not alloc
    then (0, k)
    else if pgtab == 0
    then (0, k')
    else (
      pgtab + 4 * ptx va,
      record k' {
        mem =
            store_word (memset k'.mem pgtab 0 pgsize) pde
              (bit_or (bit_or (bit_or (v2p pgtab) 1) 2) 4);
      },
    )

-- The loop of mappages, with fuel for its rounds. The Boolean is false where the C code returns -1.
unfoldable pub map_from : ℕ → Kmem → ℕ → ℕ → ℕ → ℕ → ℕ → Outcome (Bool × Kmem)
map_from zero k pgdir a last pa perm = panic
map_from (suc f) k pgdir a last pa perm =
    let (pte, k1) = walkpgdir k pgdir a true in
    let k2 = record k1 { mem = store_word k1.mem pte (bit_or (bit_or pa perm) 1) } in
    let rest = map_from f k2 pgdir ((a + pgsize) % 2 ^ 32) last ((pa + pgsize) % 2 ^ 32) perm in
    if pte == 0
    then ret (false, k1)
    else if is_present (load_word k1.mem pte)
    then panic
    else if a == last
    then ret (true, k2)
    else rest

unfoldable pub mappages : Kmem → ℕ → ℕ → ℕ → ℕ → ℕ → Outcome (Bool × Kmem)
mappages k pgdir va size pa perm =
    let a = pg_round_down va in
    let last = pg_round_down ((va + size + (2 ^ 32 - 1)) % 2 ^ 32) in
    map_from (suc ((last - a) / pgsize)) k pgdir a last pa perm

-- The loop of deallocuvm, with fuel for its rounds.
unfoldable pub dealloc_from : ℕ → Linker → Kmem → ℕ → ℕ → ℕ → Outcome Kmem
dealloc_from zero l k pgdir a oldsz = ret k
dealloc_from (suc f) l k pgdir a oldsz =
    let (pte, k1) = walkpgdir k pgdir a false in
    let pa = pte_addr (load_word k1.mem pte) in
    let skip = dealloc_from f l k1 pgdir ((pdx a + 1) * 2 ^ 22 % 2 ^ 32) oldsz in
    let next = dealloc_from f l k1 pgdir ((a + pgsize) % 2 ^ 32) oldsz in
    let freed = kfree l.end k1 (p2v pa) >>= λ k2.
    dealloc_from f l (record k2 { mem = store_word k2.mem pte 0 }) pgdir ((a + pgsize) % 2 ^ 32)
      oldsz in
    if not (ltb a oldsz)
    then ret k
    else if pte == 0
    then skip
    else if not (is_present (load_word k1.mem pte))
    then next
    else if pa == 0
    then panic
    else freed

unfoldable pub deallocuvm : Linker → Kmem → ℕ → ℕ → ℕ → Outcome (ℕ × Kmem)
deallocuvm l k pgdir oldsz newsz =
    let done = dealloc_from (suc (oldsz / pgsize)) l k pgdir (pg_round_up newsz) oldsz >>= λ k'.
    ret (newsz, k') in
    if leb oldsz newsz then ret (oldsz, k) else done

-- The loop of allocuvm, with fuel for its rounds.
unfoldable pub alloc_from : ℕ → Linker → Kmem → ℕ → ℕ → ℕ → ℕ → Outcome (ℕ × Kmem)
alloc_from zero l k pgdir a oldsz newsz = ret (newsz, k)
alloc_from (suc f) l k pgdir a oldsz newsz =
    let (mem, k1) = kalloc k in
    let undo = λ (k' : Kmem). deallocuvm l k' pgdir newsz oldsz in
    let out = undo k1 >>= λ r. ret (0, r.1) in
    let filled = record k1 { mem = memset k1.mem mem 0 pgsize } in
    let mapped = mappages filled pgdir a pgsize (v2p mem) 6 >>= λ r.
    let rest = alloc_from f l r.1 pgdir ((a + pgsize) % 2 ^ 32) oldsz newsz in
    let back = undo r.1 >>= (λ u. kfree l.end u.1 mem >>= λ k'. ret (0, k')) in
    if r.0 then rest else back in
    if not (ltb a newsz) then ret (newsz, k) else if mem == 0 then out else mapped

unfoldable pub allocuvm : Linker → Kmem → ℕ → ℕ → ℕ → Outcome (ℕ × Kmem)
allocuvm l k pgdir oldsz newsz =
    let grown = alloc_from (suc (newsz / pgsize)) l k pgdir (pg_round_up oldsz) oldsz newsz in
    if leb kernbase newsz then ret (0, k) else if ltb newsz oldsz then ret (oldsz, k) else grown

-- The loop of freevm over the page directory, `n` entries left from the entry at `pde` on.
unfoldable pub free_tables : ℕ → Linker → Kmem → ℕ → Outcome Kmem
free_tables zero l k pde = ret k
free_tables (suc n) l k pde =
    let e = load_word k.mem pde in
    let freed = kfree l.end k (p2v (pte_addr e)) in
    (if is_present e then freed else ret k) >>= λ k'. free_tables n l k' (pde + 4)

unfoldable pub freevm : Linker → Kmem → ℕ → Outcome Kmem
freevm l k pgdir =
    let all = do
      r ← deallocuvm l k pgdir kernbase 0
      k2 ← free_tables 1024 l r.1 pgdir
      kfree l.end k2 pgdir
    in if pgdir == 0 then panic else all

-- A row of kmap[]: virt, phys_start, phys_end, perm.
pub record Kmap : Type 0 where
  pub virt : ℕ
  pub phys_start : ℕ
  pub phys_end : ℕ
  pub perm : ℕ

unfoldable pub kmap : Linker → List Kmap
kmap l =
    record { virt = kernbase; phys_start = 0; phys_end = 0x100000; perm = 2 }
    ∷ record {
      virt = kernbase + 0x100000;
      phys_start = 0x100000;
      phys_end = v2p l.data_start;
      perm = 0;
    }
    ∷ record { virt = l.data_start; phys_start = v2p l.data_start; phys_end = phystop; perm = 2 }
    ∷ record { virt = 0xFE000000; phys_start = 0xFE000000; phys_end = 0; perm = 2 }
    ∷ []

unfoldable pub map_rows : Linker → List Kmap → Kmem → ℕ → Outcome (ℕ × Kmem)
map_rows l [] k pgdir = ret (pgdir, k)
map_rows l (row ∷ rows) k pgdir =
    mappages k pgdir row.virt ((row.phys_end + 2 ^ 32 - row.phys_start) % 2 ^ 32) row.phys_start
      row.perm
    >>= λ r.
        let rest = map_rows l rows r.1 pgdir in
        let undo = freevm l r.1 pgdir >>= λ k'. ret (0, k') in if r.0 then rest else undo

-- P2V(PHYSTOP) is below DEVSPACE, so the check for it is constant and passes.
unfoldable pub setupkvm : Linker → Kmem → Outcome (ℕ × Kmem)
setupkvm l k =
    let (pgdir, k1) = kalloc k in
    let rows = map_rows l (kmap l) (record k1 { mem = memset k1.mem pgdir 0 pgsize }) pgdir in
    if pgdir == 0 then ret (0, k1) else rows

-- The C code does not test what kalloc and mappages return.
unfoldable pub inituvm : Kmem → ℕ → ℕ → ℕ → Outcome Kmem
inituvm k pgdir init sz =
    let (mem, k1) = kalloc k in
    let loaded =
      mappages (record k1 { mem = memset k1.mem mem 0 pgsize }) pgdir 0 pgsize (v2p mem) 6 >>= λ r.
      ret (record (r.1) { mem = memmove (r.1).mem mem init sz }) in
    if leb pgsize sz then panic else loaded

unfoldable pub clearpteu : Kmem → ℕ → ℕ → Outcome Kmem
clearpteu k pgdir uva =
    let (pte, k1) = walkpgdir k pgdir uva false in
    let e = load_word k1.mem pte in
    if pte == 0
    then panic
    else ret (record k1 { mem = store_word k1.mem pte (if is_user e then e - 4 else e) })

-- The loop of copyuvm, with fuel for its rounds; `d` is the new page directory.
unfoldable pub copy_from : ℕ → Linker → Kmem → ℕ → ℕ → ℕ → ℕ → Outcome (ℕ × Kmem)
copy_from zero l k pgdir d i sz = ret (d, k)
copy_from (suc f) l k pgdir d i sz =
    let (pte, k0) = walkpgdir k pgdir i false in
    let e = load_word k0.mem pte in
    let (mem, k1) = kalloc k0 in
    let bad = λ (k' : Kmem). freevm l k' d >>= (λ k''. ret (0, k'')) in
    let out = bad k1 in
    let copied = record k1 { mem = memmove k1.mem mem (p2v (pte_addr e)) pgsize } in
    let mapped = mappages copied d i pgsize (v2p mem) (pte_flags e) >>= λ r.
    let rest = copy_from f l r.1 pgdir d ((i + pgsize) % 2 ^ 32) sz in
    let back = kfree l.end r.1 mem >>= bad in if r.0 then rest else back in
    if not (ltb i sz)
    then ret (d, k)
    else if pte == 0
    then panic
    else if not (is_present e)
    then panic
    else if mem == 0
    then out
    else mapped

unfoldable pub copyuvm : Linker → Kmem → ℕ → ℕ → Outcome (ℕ × Kmem)
copyuvm l k pgdir sz = setupkvm l k >>= λ r.
    let copied = copy_from (suc (sz / pgsize)) l r.1 pgdir r.0 0 sz in
    if r.0 == 0 then ret (0, r.1) else copied

-- The C code reads through the null pointer where `uva` has no page table; here that faults.
unfoldable pub uva2ka : Kmem → ℕ → ℕ → Outcome ℕ
uva2ka k pgdir uva =
    let (pte, k1) = walkpgdir k pgdir uva false in
    let e = load_word k1.mem pte in
    if pte == 0
    then panic
    else if not (is_present e)
    then ret 0
    else if not (is_user e)
    then ret 0
    else ret (p2v (pte_addr e))

-- The loop of copyout, with fuel for its rounds. False is the return of -1.
unfoldable pub copyout_from : ℕ → Kmem → ℕ → ℕ → ℕ → ℕ → Outcome (Bool × Kmem)
copyout_from zero k pgdir va p len = ret (true, k)
copyout_from (suc f) k pgdir va p len =
    let va0 = pg_round_down va in
    let n = if ltb len (pgsize - (va - va0)) then len else pgsize - (va - va0) in
    let round = uva2ka k pgdir va0 >>= λ pa0.
    let rest =
      copyout_from f (record k { mem = memmove k.mem (pa0 + (va - va0)) p n }) pgdir
        ((va0 + pgsize) % 2 ^ 32) (p + n) (len - n) in
    if pa0 == 0 then ret (false, k) else rest in
    if len == 0 then ret (true, k) else round

unfoldable pub copyout : Kmem → ℕ → ℕ → ℕ → ℕ → Outcome (Bool × Kmem)
copyout k pgdir va p len = copyout_from (len + 2) k pgdir va p len

unfoldable pub sys_getmemsize : ℕ → ℕ
sys_getmemsize sz = sz

unfoldable pub sys_getvpages : ℕ → ℕ
sys_getvpages sz = (sz + pgsize + (2 ^ 32 - 1)) % 2 ^ 32 / pgsize

-- The test of one round of sys_getptentries: both levels present.
unfoldable pub is_mapped : Memory → ℕ → ℕ → Bool
is_mapped m pgdir a =
    let pde = load_word m (pgdir + 4 * pdx a) in
    is_present pde && is_present (load_word m (p2v (pte_addr pde) + 4 * ptx a))

-- The loop of sys_getptentries with fuel: `none` means that the fuel ran out.
unfoldable pub count_from : ℕ → Memory → ℕ → ℕ → ℕ → ℕ → Option ℕ
count_from zero m pgdir sz a count = none
count_from (suc f) m pgdir sz a count =
    let rest =
      count_from f m pgdir sz ((a + pgsize) % 2 ^ 32)
        (if is_mapped m pgdir a then count + 1 else count) in
    if ltb a sz then rest else some count

unfoldable pub sys_getptentries : ℕ → Memory → ℕ → ℕ → Option ℕ
sys_getptentries fuel m pgdir sz = count_from fuel m pgdir sz 0 0

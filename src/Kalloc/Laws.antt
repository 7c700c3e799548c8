-- ===== src/Kalloc/Laws.antt =====
-- kfree, kalloc and freerange against the list of free pages.
use pcs_ii.Base.{
  ==-ne, All-map, le→leb, ℕ, zero, suc, ◌+◌, ◌-◌, ◌/◌, ◌%◌, ◌^◌, ◌≤◌, ◌<◌, ◌≡◌, ◌≢◌, refl, ◌∙◌, sym,
  ◌⊎◌, inl, inr, ◌↔◌, List, [], ◌∷◌, All, arith, ltb, leb, ◌==◌, ◌||◌, not, Bool-cases,
}
use pcs_ii.Base.Outcome.{Outcome, ret, panic}
use pcs_ii.Memory.{store_word, memset}
use pcs_ii.Mmu.{kernbase, phystop, v2p, pg_round_up}
use pcs_ii.Kalloc.{Kmem, kfree, kalloc, free_pages, freerange}
use pcs_ii.Kalloc.FreeList.{IsPage, Holds, load_word-store_word, Chain-after_free}

-- The state in which kfree leaves the allocator.
abbrev pub freed : Kmem → ℕ → Kmem
freed k v = record k { mem = store_word (memset k.mem v 1 4096) v k.freelist; freelist = v }

pub kfree-page :
    (end : ℕ) (k : Kmem) (v : ℕ) → kernbase ≤ end → IsPage end v → kfree end k v ≡ ret (freed k v)
unfolding kfree
kfree-page end k v h p = ground arith

-- If the kernel ends above KERNBASE, kfree of a 32-bit address panics if and only if the address is
-- no page between the end of the kernel and PHYSTOP.
pub kfree-panic :
    (end : ℕ) (k : Kmem) (v : ℕ)
    → kernbase ≤ end
    → v < 2 ^ 32
    → (kfree end k v ≡ panic) ↔ (¬ IsPage end v)
unfolding kfree
kfree-panic end k v h b = (
  λ e p. ground arith,
  λ n. elim (Bool-cases (not (v % 4096 == 0) || ltb v end || leb phystop (v2p v))) [
    | inl e ↦ rw e refl
    | inr e ↦
        absurd (n (record { aligned = ground arith; above = ground arith; below = ground arith }))
  ],
)

freelist-lt : (end : ℕ) (k : Kmem) (pages : List ℕ) → Holds end k pages → k.freelist < 2 ^ 32
freelist-lt end k [] h = omega (arith, h.chain)
freelist-lt end k (x ∷ xs) h = omega (arith, h.chain.0, h.are_pages.0.below)

-- If the kernel ends above KERNBASE, freeing a page that is not on the list puts it in front of the
-- list, and does not panic.
pub kfree-Holds :
    (end : ℕ) (k : Kmem) (v : ℕ) (pages : List ℕ)
    → kernbase ≤ end
    → IsPage end v
    → All (λ y. y ≢ v) pages
    → Holds end k pages
    → (kfree end k v ≡ ret (freed k v)) × Holds end (freed k v) (v ∷ pages)
kfree-Holds end k v pages h p n hs = (
  kfree-page end k v h p,
  record {
    chain = (
      refl,
      rw (load_word-store_word (memset k.mem v 1 4096) v k.freelist (freelist-lt end k pages hs)) (
          Chain-after_free end k.mem v k.freelist k.freelist pages p.aligned hs.are_pages n
            hs.chain),
    );
    are_pages = (p, hs.are_pages);
    distinct = (n, hs.distinct);
  },
)

-- If the kernel ends above KERNBASE, kalloc returns the null pointer exactly from an empty list,
-- and then changes nothing; otherwise it takes the first page off the list and leaves the memory as
-- it was.
pub kalloc-Holds :
    (end : ℕ) (k : Kmem) (pages : List ℕ)
    → kernbase ≤ end
    → Holds end k pages
    → let (p, k') = kalloc k in
      ((pages ≡ []) × (p ≡ 0) × (k' ≡ k))
      ⊎ ((rest : List ℕ) × (pages ≡ p ∷ rest) × (p ≢ 0) × Holds end k' rest × (k'.mem ≡ k.mem))
unfolding kalloc
kalloc-Holds end k [] h hs = inl (refl, ground (arith, hs.chain), ground (arith, hs.chain))
kalloc-Holds end k (p ∷ pages) h hs =
    rw (==-ne k.freelist 0 (omega (arith, hs.chain.0, hs.are_pages.0.above))) (
      inr (
        pages,
        rw hs.chain.0 refl,
        omega (arith, hs.chain.0, hs.are_pages.0.above),
        record {
          chain = rw hs.chain.0 hs.chain.1;
          are_pages = hs.are_pages.1;
          distinct = hs.distinct.1;
        },
        refl,
      ))

-- If the kernel ends above KERNBASE, the page that kfree was given last is what kalloc returns
-- next, and the free list begins again where it did.
pub kalloc-kfree :
    (end : ℕ) (k k' : Kmem) (v : ℕ) (pages : List ℕ)
    → kernbase ≤ end
    → IsPage end v
    → Holds end k pages
    → kfree end k v ≡ ret k'
    → ((kalloc k').0 ≡ v) × ((kalloc k').1.freelist ≡ k.freelist)
unfolding kalloc
kalloc-kfree end k k' v pages h p hs e =
    let same : k' ≡ freed k v = ret-injective k' (freed k v) (sym e ∙ kfree-page end k v h p) in
    rw (same, ==-ne v 0 (omega (arith, p.above)))
      (refl, load_word-store_word (memset k.mem v 1 4096) v k.freelist (freelist-lt end k pages hs))
  where
    ret-injective : (a b : Kmem) → ◌≡◌ {A = Outcome Kmem} (ret a) (ret b) → a ≡ b
    ret-injective a b q = cc

-- `n` pages from `p` on, put one by one in front of a list.
abbrev pub pushed : ℕ → ℕ → List ℕ → List ℕ
pushed p zero pages = pages
pushed p (suc n) pages = pushed (p + 4096) n (p ∷ pages)

-- No page of the list lies in the range.
abbrev pub Outside : ℕ → ℕ → List ℕ → Type 0
Outside lo hi = All (λ y. (y + 4096 ≤ lo) ⊎ (hi ≤ y))

-- What a run over a range leaves: it returns, with the given pages on the list and the lock flag kept.
pub record Freed (end : ℕ) (k : Kmem) (pages : List ℕ) (r : Outcome Kmem) : Type 0 where
  pub after : Kmem
  pub returns : r ≡ ret after
  pub holds : Holds end after pages
  pub same_lock : after.use_lock ≡ k.use_lock

free_pages-Freed :
    (f n end : ℕ) (k : Kmem) (p vend : ℕ) (pages : List ℕ)
    → kernbase ≤ end
    → n ≡ (vend - p) / 4096
    → n < f
    → end ≤ p
    → p % 4096 ≡ 0
    → p ≤ kernbase + phystop
    → vend ≤ kernbase + phystop
    → Outside p vend pages
    → Holds end k pages
    → Freed end k (pushed p n pages) (free_pages f end k p vend)
unfolding free_pages
free_pages-Freed zero n end k p vend pages h e l a b c d o hs = absurd (omega arith)
free_pages-Freed (suc f) zero end k p vend pages h e l a b c d o hs = record {
  after = k;
  returns = ground arith;
  holds = hs;
  same_lock = refl;
}
free_pages-Freed (suc f) (suc n) end k p vend pages h e l a b c d o hs =
    let next : (p + 4096) % 2 ^ 32 ≡ p + 4096 = omega arith in
    let one =
      kfree-Holds end k p pages h (record { aligned = b; above = a; below = omega arith })
        (All-map pages (λ y q. omega arith) o) hs in
    let rest =
      free_pages-Freed f n end (freed k p) (p + 4096) vend (p ∷ pages) h (omega arith) (omega arith)
        (omega arith) (omega arith) (omega arith) d
        (inl (omega arith), All-map pages (λ y q. omega arith) o) one.1 in
    rw (next, le→leb (p + 4096) vend (omega arith), one.0)
      (record {
        after = rest.after;
        returns = rest.returns;
        holds = rest.holds;
        same_lock = rest.same_lock;
      })

-- For a range of memory below PHYSTOP and above the kernel, which ends above KERNBASE, that holds
-- no free page, freerange puts exactly the whole pages of the range on the free list, the highest
-- first, and does not panic.
pub freerange-Freed :
    (end : ℕ) (k : Kmem) (vstart vend : ℕ) (pages : List ℕ)
    → kernbase ≤ end
    → end ≤ vstart
    → vstart ≤ vend
    → vend ≤ kernbase + phystop
    → Outside (pg_round_up vstart) vend pages
    → Holds end k pages
    → Freed end k
        (pushed (pg_round_up vstart) ((vend - pg_round_up vstart) / 4096) pages)
        (freerange end k vstart vend)
unfolding freerange
freerange-Freed end k vstart vend pages h a b c o hs =
    free_pages-Freed (suc (vend / 4096)) ((vend - pg_round_up vstart) / 4096) end k
      (pg_round_up vstart) vend pages h refl (omega arith) (omega arith) (omega arith) (omega arith)
      c o hs

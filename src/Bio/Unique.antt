-- ===== src/Bio/Unique.antt =====
-- A disk block has at most one buffer, whatever bget recycles and brelse moves.
use pcs_ii.Base.{
  All, false, ◌%◌, ◌^◌, ℕ, ◌+◌, ◌-◌, ◌≤◌, ◌≡◌, ◌≢◌, refl, not, ◌&&◌, Bool-cases, Option-cases, inl,
  inr, List, [], ◌∷◌, none, some, ◌==◌, if◌then◌else◌, arith,
}
use pcs_ii.Base.Outcome.{Outcome, ret, panic}
use pcs_ii.Bio.{
  Buf, is_free, is_block, ref_cached, recycle_last, bget, unlink, replace, brelse, held_by,
}

abbrev pub buffers_of : ℕ → ℕ → List Buf → ℕ
buffers_of dev blockno [] = 0
buffers_of dev blockno (b ∷ bs) =
    (if is_block dev blockno b then 1 else 0) + buffers_of dev blockno bs

-- No two buffers hold the same block. Device 0 is none: buffers that were never used name it.
pub record IsUnique (bs : List Buf) : Type 0 where
  pub at_most_one : (dev blockno : ℕ) → dev ≢ 0 → buffers_of dev blockno bs ≤ 1

ref_cached_same :
    (bs bs' : List Buf) (dev blockno i d c : ℕ)
    → ref_cached bs dev blockno ≡ some (i, bs')
    → buffers_of d c bs' ≡ buffers_of d c bs
unfolding ref_cached
ref_cached_same [] bs' dev blockno i d c h = absurd (ground arith)
ref_cached_same (b ∷ bs) bs' dev blockno i d c h = elim (Bool-cases (is_block dev blockno b)) [
  | inl e ↦ ground arith
  | inr e ↦ elim (Option-cases (ref_cached bs dev blockno)) [
    | inl n ↦ absurd (ground arith)
    | inr ((j, cs), n) ↦ ground (arith, ref_cached_same bs cs dev blockno j d c n)
  ]
]

ref_cached-none :
    (bs : List Buf) (dev blockno : ℕ)
    → ref_cached bs dev blockno ≡ none
    → buffers_of dev blockno bs ≡ 0
unfolding ref_cached
ref_cached-none [] dev blockno h = refl
ref_cached-none (b ∷ bs) dev blockno h = elim (Option-cases (ref_cached bs dev blockno)) [
  | inl n ↦ ground (arith, ref_cached-none bs dev blockno n)
  | inr ((j, cs), n) ↦ absurd (ground arith)
]

recycle_last_le :
    (bs bs' : List Buf) (dev blockno i d c : ℕ)
    → recycle_last bs dev blockno ≡ some (i, bs')
    → buffers_of d c bs' ≤ buffers_of d c bs + (if dev == d && blockno == c then 1 else 0)
unfolding recycle_last
recycle_last_le [] bs' dev blockno i d c h = absurd (ground arith)
recycle_last_le (b ∷ bs) bs' dev blockno i d c h =
    elim (Option-cases (recycle_last bs dev blockno)) [
      | inl n ↦ ground arith
      | inr ((j, cs), n) ↦ ground (arith, recycle_last_le bs cs dev blockno j d c n)
    ]

ref_cached_pos :
    (bs bs' : List Buf) (dev blockno i : ℕ)
    → ref_cached bs dev blockno ≡ some (i, bs')
    → 1 ≤ buffers_of dev blockno bs
unfolding ref_cached
ref_cached_pos [] bs' dev blockno i h = absurd (ground arith)
ref_cached_pos (b ∷ bs) bs' dev blockno i h = elim (Option-cases (ref_cached bs dev blockno)) [
  | inl n ↦ ground arith
  | inr ((j, cs), n) ↦ ground (arith, ref_cached_pos bs cs dev blockno j n)
]

recycle_last_pos :
    (bs bs' : List Buf) (dev blockno i : ℕ)
    → recycle_last bs dev blockno ≡ some (i, bs')
    → 1 ≤ buffers_of dev blockno bs'
unfolding recycle_last
recycle_last_pos [] bs' dev blockno i h = absurd (ground arith)
recycle_last_pos (b ∷ bs) bs' dev blockno i h = elim (Option-cases (recycle_last bs dev blockno)) [
  | inl n ↦ ground arith
  | inr ((j, cs), n) ↦ ground (arith, recycle_last_pos bs cs dev blockno j n)
]

recycle_last-none :
    (bs : List Buf) (dev blockno : ℕ)
    → recycle_last bs dev blockno ≡ none
    → All (λ b. is_free b ≡ false) bs
unfolding recycle_last
recycle_last-none [] dev blockno h = tt
recycle_last-none (b ∷ bs) dev blockno h = elim (Option-cases (recycle_last bs dev blockno)) [
  | inl n ↦ (ground arith, recycle_last-none bs dev blockno n)
  | inr ((j, cs), n) ↦ absurd (ground arith)
]

-- What bget leaves of a list of buffers.
abbrev pub Gives : List Buf → ℕ → ℕ → Outcome (ℕ × List Buf) → Type 0
Gives bs dev blockno panic = (buffers_of dev blockno bs ≡ 0) × All (λ b. is_free b ≡ false) bs
Gives bs dev blockno (ret r) = IsUnique r.1 × (buffers_of dev blockno r.1 ≡ 1)

-- From a cache with at most one buffer for each block, and for a device other than 0, bget leaves
-- exactly one buffer for the block that was asked for, whether it was cached or a buffer was
-- recycled, and at most one for every other block. It panics only if the block has no buffer and no
-- buffer is free.
pub bget-Gives :
    (bs : List Buf) (dev blockno : ℕ)
    → dev ≢ 0
    → IsUnique bs
    → Gives bs dev blockno (bget bs dev blockno)
unfolding bget
bget-Gives bs dev blockno z u = elim (Option-cases (ref_cached bs dev blockno)) [
  | inl e ↦ elim (Option-cases (recycle_last bs dev blockno)) [
    | inl n ↦
        rw (e, bget)
          (rw (n, bget) (ref_cached-none bs dev blockno e, recycle_last-none bs dev blockno n))
    | inr ((i, bs'), n) ↦
        rw (e, bget)
          (rw (n, bget)
            (
              record {
                at_most_one = λ d c y. ground (
                  arith,
                  recycle_last_le bs bs' dev blockno i d c n,
                  u.at_most_one d c y,
                  ref_cached-none bs dev blockno e,
                );
              },
              ground (
                arith,
                recycle_last_le bs bs' dev blockno i dev blockno n,
                recycle_last_pos bs bs' dev blockno i n,
                ref_cached-none bs dev blockno e,
              ),
            ))
  ]
  | inr ((i, bs'), e) ↦
      rw (e, bget)
        (
          record {
            at_most_one = λ d c y.
                omega (arith, ref_cached_same bs bs' dev blockno i d c e, u.at_most_one d c y);
          },
          omega (
            arith,
            ref_cached_same bs bs' dev blockno i dev blockno e,
            u.at_most_one dev blockno z,
            ref_cached_pos bs bs' dev blockno i e,
          ),
        )
]

unlink_sum :
    (bs others : List Buf) (i d c : ℕ) (b : Buf)
    → unlink bs i ≡ some (b, others)
    → (buffers_of d c bs ≡ (if is_block d c b then 1 else 0) + buffers_of d c others) × (b.id ≡ i)
unfolding unlink
unlink_sum [] others i d c b h = absurd (ground arith)
unlink_sum (x ∷ bs) others i d c b h = elim (Option-cases (unlink bs i)) [
  | inl n ↦ ground arith
  | inr ((y, cs), n) ↦ ground (arith, unlink_sum bs cs i d c y n)
]

replace_same :
    (bs others : List Buf) (i d c : ℕ) (b b' : Buf)
    → unlink bs i ≡ some (b, others)
    → b'.id ≡ i
    → is_block d c b' ≡ is_block d c b
    → buffers_of d c (replace bs b') ≡ buffers_of d c bs
unfolding unlink replace
replace_same [] others i d c b b' h e s = refl
replace_same (x ∷ bs) others i d c b b' h e s = elim (Option-cases (unlink bs i)) [
  | inl n ↦ ground arith
  | inr ((y, cs), n) ↦ ground (arith, replace_same bs cs i d c y b' n)
]

-- Unless brelse panics.
abbrev pub Leaves : List Buf → Outcome (List Buf) → Type 0
Leaves bs panic = Unit
Leaves bs (ret bs') = (d c : ℕ) → buffers_of d c bs' ≡ buffers_of d c bs

-- brelse, if it does not panic, leaves as many buffers for every block as there were: it only
-- counts down and moves one buffer.
pub brelse-Leaves : (bs : List Buf) (i pid : ℕ) → Leaves bs (brelse bs i pid)
unfolding brelse
brelse-Leaves bs i pid = elim (Option-cases (unlink bs i)) [
  | inl e ↦ rw (e, brelse) tt
  | inr ((b, others), e) ↦ elim (Bool-cases (not (held_by b.owner pid))) [
    | inl o ↦ rw (e, brelse) (rw o tt)
    | inr o ↦ elim (Bool-cases ((b.refcnt + 2 ^ 32 - 1) % 2 ^ 32 == 0)) [
      | inl z ↦
          rw (e, brelse) (rw (o, z) (λ d c. omega (arith, (unlink_sum bs others i d c b e).0)))
      | inr z ↦
          rw (e, brelse)
            (rw (o, z)
              (λ d c. replace_same bs others i d c b _ e (unlink_sum bs others i d c b e).1 refl))
    ]
  ]
]

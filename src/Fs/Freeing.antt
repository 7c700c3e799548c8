-- ===== src/Fs/Freeing.antt =====
-- balloc and bfree change one bit of the bitmap.
use pcs_ii.Base.{
  ℕ, suc, ◌+◌, ◌-◌, ◌/◌, ◌%◌, ◌^◌, ◌<◌, ◌≡◌, ◌≢◌, refl, ap, ◌∙◌, sym, true, false, ◌||◌, Bool-cases,
  Option-cases, inl, inr, ◌⊎◌, ==_iff, ==-ne, ◌==◌, arith,
}
use pcs_ii.Base.Outcome.{ret}
use pcs_ii.Fs.{
  Superblock, Blocks, bpb, bblock, bit_set, put_byte, bzero, balloc_from, balloc, bfree,
}
use pcs_ii.Fs.Bits.{digit, digit-set, digit-other}
use pcs_ii.Fs.Lowest.{in_use, IsFirst, balloc-IsFirst}

-- The byte of a block's bit, and the disk after balloc.

abbrev taken : Superblock → Blocks → ℕ → Blocks
taken sb d b =
    bzero
      (put_byte d (bblock sb b) (b % bpb / 8) (d (bblock sb b) (b % bpb / 8) + 2 ^ (b % bpb % 8))) b

balloc-taken :
    (sb : Superblock) (d d' : Blocks) (b : ℕ) → balloc sb d ≡ ret (b, d') → d' ≡ taken sb d b
unfolding balloc
balloc-taken sb d d' b h = elim (Option-cases (balloc_from (suc (sb.size / bpb)) sb d 0)) [
  | inl o ↦ absurd (ground (arith, h, o))
  | inr (c, o) ↦
      let same : c ≡ b = ground (arith, h, o) in
      let disk : taken sb d c ≡ d' = ground (arith, h, o) in sym disk ∙ ap (taken sb d) same
]

-- One byte of a block other than the new one.
taken_hit :
    (sb : Superblock) (d : Blocks) (b c j : ℕ)
    → c ≢ b
    → c ≡ bblock sb b
    → j ≡ b % bpb / 8
    → taken sb d b c j ≡ d (bblock sb b) (b % bpb / 8) + 2 ^ (b % bpb % 8)
unfolding bzero put_byte
taken_hit sb d b c j n x y =
    rw (==-ne c b n, (==_iff c (bblock sb b)).1 x, (==_iff j (b % bpb / 8)).1 y) refl

taken_miss :
    (sb : Superblock) (d : Blocks) (b c j : ℕ)
    → c ≢ b
    → (c ≢ bblock sb b) ⊎ (j ≢ b % bpb / 8)
    → taken sb d b c j ≡ d c j
unfolding bzero put_byte
taken_miss sb d b c j n (inl x) = rw (==-ne c b n, ==-ne c (bblock sb b) x) refl
taken_miss sb d b c j n (inr y) = elim (Bool-cases (c == bblock sb b)) [
  | inl z ↦ rw (==-ne c b n, z, ==-ne j (b % bpb / 8) y) refl
  | inr z ↦ rw (==-ne c b n, z) refl
]

clear_digit :
    (sb : Superblock) (d : Blocks) (b : ℕ)
    → in_use sb d b ≡ false
    → digit (d (bblock sb b) (b % bpb / 8)) (b % bpb % 8) ≡ 0
unfolding bit_set
clear_digit sb d b h = ground (arith, h)

in_use-taken_self :
    (sb : Superblock) (d : Blocks) (b : ℕ)
    → in_use sb d b ≡ false
    → bblock sb b ≢ b
    → in_use sb (taken sb d b) b ≡ true
unfolding bit_set
in_use-taken_self sb d b h n =
    ap (λ y. digit y (b % bpb % 8) == 1) (taken_hit sb d b (bblock sb b) (b % bpb / 8) n refl refl)
    ∙ (==_iff (digit (d (bblock sb b) (b % bpb / 8) + 2 ^ (b % bpb % 8)) (b % bpb % 8)) 1).1
        (digit-set (b % bpb % 8) (d (bblock sb b) (b % bpb / 8)) (clear_digit sb d b h))

in_use-taken_ne :
    (sb : Superblock) (d : Blocks) (b c : ℕ)
    → in_use sb d b ≡ false
    → bblock sb c ≢ b
    → c ≢ b
    → in_use sb (taken sb d b) c ≡ in_use sb d c
unfolding bit_set bblock
in_use-taken_ne sb d b c h n o = elim (Bool-cases (bblock sb c == bblock sb b)) [
  | inr x ↦
      ap (λ y. digit y (c % bpb % 8) == 1)
        (taken_miss sb d b (bblock sb c) (c % bpb / 8) n (inl (ground (arith, x))))
  | inl x ↦ elim (Bool-cases (c % bpb / 8 == b % bpb / 8)) [
    | inr y ↦
        ap (λ y. digit y (c % bpb % 8) == 1)
          (taken_miss sb d b (bblock sb c) (c % bpb / 8) n (inr (ground (arith, y))))
    | inl y ↦
        let block : bblock sb c ≡ bblock sb b = (==_iff (bblock sb c) (bblock sb b)).0 x in
        let byte : c % bpb / 8 ≡ b % bpb / 8 = (==_iff (c % bpb / 8) (b % bpb / 8)).0 y in
        ap (λ y. digit y (c % bpb % 8) == 1)
          (taken_hit sb d b (bblock sb c) (c % bpb / 8) n block byte)
        ∙ ap (λ y. y == 1)
            (digit-other (b % bpb % 8) (c % bpb % 8) (d (bblock sb b) (b % bpb / 8))
              (clear_digit sb d b h) (λ e. o (omega (arith, block, byte))))
        ∙ ap (λ k. digit (d k (b % bpb / 8)) (c % bpb % 8) == 1) (sym block)
        ∙ ap (λ j. digit (d (bblock sb c) j) (c % bpb % 8) == 1) (sym byte)
  ]
]

-- bfree of the new block gives each bitmap block back its bytes.
freed_byte :
    (sb : Superblock) (d : Blocks) (b c j : ℕ)
    → bblock sb b ≢ b
    → c ≢ b
    → put_byte
        (taken sb d b)
        (bblock sb b)
        (b % bpb / 8)
        (taken sb d b (bblock sb b) (b % bpb / 8) - 2 ^ (b % bpb % 8))
        c
        j
      ≡ d c j
unfolding put_byte
freed_byte sb d b c j n o = elim (Bool-cases (c == bblock sb b)) [
  | inr x ↦ rw x (taken_miss sb d b c j o (inl (ground (arith, x))))
  | inl x ↦ elim (Bool-cases (j == b % bpb / 8)) [
    | inr y ↦ rw (x, y) (taken_miss sb d b c j o (inr (ground (arith, y))))
    | inl y ↦
        let block : c ≡ bblock sb b = (==_iff c (bblock sb b)).0 x in
        let byte : j ≡ b % bpb / 8 = (==_iff j (b % bpb / 8)).0 y in
        let there : d c j ≡ d (bblock sb b) (b % bpb / 8) =
          ap (λ k. d k j) block ∙ ap (d (bblock sb b)) byte in
        rw (x, y) (omega (arith, there, taken_hit sb d b (bblock sb b) (b % bpb / 8) n refl refl))
  ]
]

in_use-freed :
    (sb : Superblock) (d : Blocks) (b c : ℕ)
    → bblock sb b ≢ b
    → bblock sb c ≢ b
    → in_use sb
        (put_byte
          (taken sb d b)
          (bblock sb b)
          (b % bpb / 8)
          (taken sb d b (bblock sb b) (b % bpb / 8) - 2 ^ (b % bpb % 8)))
        c
      ≡ in_use sb d c
unfolding bit_set
in_use-freed sb d b c n o =
    ap (λ y. digit y (c % bpb % 8) == 1) (freed_byte sb d b (bblock sb c) (c % bpb / 8) n o)

-- What bfree does to a disk, once its block is known to be in use.
bfree_lem :
    (sb : Superblock) (d : Blocks) (b : ℕ)
    → in_use sb d b ≡ true
    → bfree sb d b
      ≡ ret (
          put_byte d
            (bblock sb b)
            (b % bpb / 8)
            (d (bblock sb b) (b % bpb / 8) - 2 ^ (b % bpb % 8)))
unfolding bfree
bfree_lem sb d b h = rw h refl

-- On a disk whose bitmap calls its own blocks in use, balloc takes the lowest block that is free; it
-- marks that block as in use and changes the mark of no other. Freeing it again with bfree does not
-- panic and gives every block the mark that it had.
pub bfree-balloc :
    (sb : Superblock) (d d' : Blocks) (b : ℕ)
    → balloc sb d ≡ ret (b, d')
    → ((c : ℕ) → c < sb.size → in_use sb d (bblock sb c) ≡ true)
    → IsFirst (in_use sb d) 0 sb.size b
      × ((c : ℕ) → c < sb.size → in_use sb d' c ≡ (c == b || in_use sb d c))
      × ((d'' : Blocks) × (bfree sb d' b ≡ ret d'')
          × ((c : ℕ) → c < sb.size → in_use sb d'' c ≡ in_use sb d c))
bfree-balloc sb d d' b h own =
    let first = balloc-IsFirst sb d d' b h in
    let disk = balloc-taken sb d d' b h in
    let apart : (c : ℕ) → c < sb.size → bblock sb c ≢ b =
      λ c l e. ground (arith, own c l, ap (in_use sb d) e, first.refused) in
    let mine = apart b first.below in
    let marked : (c : ℕ) → c < sb.size → in_use sb (taken sb d b) c ≡ (c == b || in_use sb d c) =
      λ c l. elim (Bool-cases (c == b)) [
        | inl z ↦
            ap (in_use sb (taken sb d b)) ((==_iff c b).0 z)
            ∙ in_use-taken_self sb d b first.refused mine
            ∙ sym (rw z refl)
        | inr z ↦
            in_use-taken_ne sb d b c first.refused (apart c l) (ground (arith, z)) ∙ sym (rw z refl)
      ] in
    (
      first,
      λ c l. ap (λ (x : Blocks). in_use sb x c) disk ∙ marked c l,
      (
        put_byte (taken sb d b) (bblock sb b) (b % bpb / 8)
            (taken sb d b (bblock sb b) (b % bpb / 8) - 2 ^ (b % bpb % 8)),
        ap (λ x. bfree sb x b) disk
            ∙ bfree_lem sb (taken sb d b) b (in_use-taken_self sb d b first.refused mine),
        λ c l. in_use-freed sb d b c mine (apart c l),
      ),
    )

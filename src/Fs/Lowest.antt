-- ===== src/Fs/Lowest.antt =====
-- balloc takes the lowest free block.
use pcs_ii.Base.{
  ℕ, zero, suc, ◌+◌, ◌-◌, ◌/◌, ◌%◌, ◌≤◌, ◌<◌, min, ◌≡◌, refl, ap, ◌∙◌, sym, Bool, true, false,
  Bool-cases, Option-cases, inl, inr, none, some, ltb, arith, ltb→lt,
}
use pcs_ii.Base.Outcome.{ret}
use pcs_ii.Fs.{Superblock, Blocks, bpb, bblock, bit_set, find_clear, balloc_from, balloc}

-- The bit of block `b` in the bitmap.
abbrev pub in_use : Superblock → Blocks → ℕ → Bool
in_use sb d b = bit_set (d (bblock sb b)) (b % bpb)

-- The first index from `lo` on, below `hi`, that a test refuses.
pub record IsFirst (test : ℕ → Bool) (lo hi r : ℕ) : Type 0 where
  pub above : lo ≤ r
  pub below : r < hi
  pub refused : test r ≡ false
  pub before : (j : ℕ) → lo ≤ j → j < r → test j ≡ true

IsFirst-later :
    (test : ℕ → Bool) (lo mid hi r : ℕ)
    → lo ≤ mid
    → ((j : ℕ) → lo ≤ j → j < mid → test j ≡ true)
    → IsFirst test mid hi r
    → IsFirst test lo hi r
IsFirst-later test lo mid hi r l all f = record {
  above = omega (arith, f.above);
  below = f.below;
  refused = f.refused;
  before = λ j a b. elim (Bool-cases (ltb j mid)) [
    | inl h ↦ all j a (ltb→lt j mid h)
    | inr h ↦ f.before j (ground arith) b
  ];
}

find_clear-IsFirst :
    (n : ℕ) (bytes : ℕ → ℕ) (bi r : ℕ)
    → find_clear n bytes bi ≡ some r
    → IsFirst (bit_set bytes) bi (bi + n) r
unfolding find_clear
find_clear-IsFirst zero bytes bi r h = absurd (ground arith)
find_clear-IsFirst (suc n) bytes bi r h = elim (Bool-cases (bit_set bytes bi)) [
  | inl e ↦
      let rest = find_clear-IsFirst n bytes (bi + 1) r (ground arith) in
      let wide : IsFirst (bit_set bytes) (bi + 1) (bi + suc n) r = record {
        above = rest.above;
        below = omega (arith, rest.below);
        refused = rest.refused;
        before = rest.before;
      } in
      IsFirst-later (bit_set bytes) bi (bi + 1) (bi + suc n) r (omega arith)
        (λ j a b. ap (bit_set bytes) (omega arith) ∙ e) wide
  | inr e ↦
      let same : bi ≡ r = ground arith in
      record {
        above = omega arith;
        below = omega arith;
        refused = ap (bit_set bytes) (sym same) ∙ e;
        before = λ j a b. absurd (omega arith);
      }
]

find_clear_full :
    (n : ℕ) (bytes : ℕ → ℕ) (bi : ℕ)
    → find_clear n bytes bi ≡ none
    → (j : ℕ) → bi ≤ j
    → j < bi + n
    → bit_set bytes j ≡ true
unfolding find_clear
find_clear_full zero bytes bi h j a b = absurd (omega arith)
find_clear_full (suc n) bytes bi h j a b = elim (Bool-cases (bit_set bytes bi)) [
  | inl e ↦ elim (Bool-cases (ltb bi j)) [
    | inl l ↦ find_clear_full n bytes (bi + 1) (ground arith) j (ground arith) (omega arith)
    | inr l ↦ ap (bit_set bytes) (ground arith) ∙ e
  ]
  | inr e ↦ absurd (ground arith)
]

-- The bit of a block of the same bitmap block.
in_use-same :
    (sb : Superblock) (d : Blocks) (b bi : ℕ)
    → b % bpb ≡ 0
    → bi < bpb
    → in_use sb d (b + bi) ≡ bit_set (d (bblock sb b)) bi
unfolding bblock
in_use-same sb d b bi h l =
    let q : (b + bi) / bpb ≡ b / bpb = omega arith in
    let r : (b + bi) % bpb ≡ bi = omega arith in rw (q, r) refl

balloc_from-IsFirst :
    (f : ℕ) (sb : Superblock) (d : Blocks) (b r : ℕ)
    → b % bpb ≡ 0
    → balloc_from f sb d b ≡ some r
    → IsFirst (in_use sb d) b sb.size r
unfolding balloc_from
balloc_from-IsFirst zero sb d b r z h = absurd (ground arith)
balloc_from-IsFirst (suc f) sb d b r z h = elim (Bool-cases (ltb b sb.size)) [
  | inl e ↦ elim (Option-cases (find_clear (min bpb (sb.size - b)) (d (bblock sb b)) 0)) [
    | inl o ↦
        let rest = balloc_from-IsFirst f sb d (b + bpb) r (omega arith) (ground arith) in
        IsFirst-later (in_use sb d) b (b + bpb) sb.size r (omega arith)
          (λ j x y.
            ap (in_use sb d) (omega arith)
            ∙ in_use-same sb d b (j - b) z (omega arith)
            ∙ find_clear_full (min bpb (sb.size - b)) (d (bblock sb b)) 0 o (j - b) (omega arith)
                (omega (arith, rest.above, rest.below)))
          rest
    | inr (bi, o) ↦
        let same : b + bi ≡ r = ground arith in
        let hit = find_clear-IsFirst (min bpb (sb.size - b)) (d (bblock sb b)) 0 bi o in
        record {
          above = omega arith;
          below = omega (arith, hit.below, ltb→lt b sb.size e);
          refused =
              ap (in_use sb d) (sym same)
              ∙ in_use-same sb d b bi z (omega (arith, hit.below))
              ∙ hit.refused;
          before = λ j x y.
              ap (in_use sb d) (omega arith)
              ∙ in_use-same sb d b (j - b) z (omega (arith, hit.below))
              ∙ hit.before (j - b) (omega arith) (omega arith);
        }
  ]
  | inr e ↦ absurd (ground arith)
]

-- The block that balloc returns lies on the disk, was free in the bitmap, and no lower block was free.
pub balloc-IsFirst :
    (sb : Superblock) (d d' : Blocks) (b : ℕ)
    → balloc sb d ≡ ret (b, d')
    → IsFirst (in_use sb d) 0 sb.size b
unfolding balloc
balloc-IsFirst sb d d' b h = elim (Option-cases (balloc_from (suc (sb.size / bpb)) sb d 0)) [
  | inl o ↦ absurd (ground (arith, h, o))
  | inr (c, o) ↦
      let same : c ≡ b = ground (arith, h, o) in
      balloc_from-IsFirst (suc (sb.size / bpb)) sb d 0 b refl (o ∙ ap some same)
]

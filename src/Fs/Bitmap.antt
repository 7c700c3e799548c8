-- ===== src/Fs/Bitmap.antt =====
-- Which blocks the bitmap calls free, in balloc and in get_fs_stats.
use pcs_ii.Base.{
  ℕ, zero, suc, ◌+◌, ◌-◌, ◌/◌, min, ◌≡◌, refl, Bool-cases, Option-cases, inl, inr, ◌↔◌, none, ltb,
  arith,
}
use pcs_ii.Base.Outcome.{panic}
use pcs_ii.Fs.{
  Superblock, Blocks, bpb, bblock, bit_set, find_clear, balloc_from, balloc, count_clear,
  count_free, get_fs_stats,
}

find_clear-none :
    (n : ℕ) (bytes : ℕ → ℕ) (bi : ℕ) → (find_clear n bytes bi ≡ none) ↔ (count_clear n bytes bi ≡ 0)
unfolding find_clear count_clear
find_clear-none zero bytes bi = (λ _. refl, λ _. refl)
find_clear-none (suc n) bytes bi = elim (Bool-cases (bit_set bytes bi)) [
  | inl e ↦ rw e (find_clear-none n bytes (bi + 1))
  | inr e ↦ rw e (λ h. absurd (ground (arith, h)), λ h. absurd (omega arith))
]

balloc_from-none :
    (f : ℕ) (sb : Superblock) (d : Blocks) (b : ℕ)
    → (balloc_from f sb d b ≡ none) ↔ (count_free f sb d b ≡ 0)
unfolding balloc_from count_free
balloc_from-none zero sb d b = (λ _. refl, λ _. refl)
balloc_from-none (suc f) sb d b = elim (Bool-cases (ltb b sb.size)) [
  | inl e ↦ elim (Option-cases (find_clear (min bpb (sb.size - b)) (d (bblock sb b)) 0)) [
    | inl o ↦
        let z = (find_clear-none (min bpb (sb.size - b)) (d (bblock sb b)) 0).0 o in
        let (to, from) = balloc_from-none f sb d (b + bpb) in
        rw (e, o, z) (λ h. ground (arith, to h), λ h. from (omega arith))
    | inr (bi, o) ↦
        rw (e, o)
          (
            λ h. absurd (ground (arith, h)),
            λ h. absurd (
                ground (
                  arith,
                  o,
                  (find_clear-none (min bpb (sb.size - b)) (d (bblock sb b)) 0).1 (omega arith),
                )),
          )
  ]
  | inr e ↦ rw e (λ _. refl, λ _. refl)
]

-- balloc panics for want of a block if and only if get_fs_stats reports no free block.
pub balloc-panic :
    (sb : Superblock) (d : Blocks)
    → (balloc sb d ≡ panic) ↔ ((get_fs_stats sb d).free_disk_blocks ≡ 0)
unfolding balloc get_fs_stats
balloc-panic sb d = elim (Option-cases (balloc_from (suc (sb.size / bpb)) sb d 0)) [
  | inl o ↦ rw (o, balloc) (λ _. (balloc_from-none (suc (sb.size / bpb)) sb d 0).0 o, λ _. refl)
  | inr (b, o) ↦
      rw (o, balloc)
        (
          λ h. absurd (ground (arith, h)),
          λ h. absurd (ground (arith, o, (balloc_from-none (suc (sb.size / bpb)) sb d 0).1 h)),
        )
]

-- ===== src/Mkfs/Image.antt =====
-- The image of mkfs as the kernel finds it.
use pcs_ii.Base.{
  ℕ, zero, suc, ◌+◌, ◌-◌, ◌*◌, ◌/◌, ◌%◌, ◌^◌, ◌≤◌, ◌<◌, ◌≡◌, ◌≢◌, refl, ap, ◌∙◌, sym, true, false,
  ◌&&◌, List, Bool-cases, inl, inr, ◌⊎◌, ltb, ltb→lt, ==_iff, ==-ne, ◌==◌, if◌then◌else◌, arith,
}
use pcs_ii.Base.Outcome.{Outcome, ret, panic, >>=-eq-ret}
use pcs_ii.Fs.{bsize, bpb, Blocks, bit_set, bblock, count_clear, count_free, get_fs_stats}
use pcs_ii.Fs
use pcs_ii.Ide.{fssize}
use pcs_ii.Fs.Bits.{digit, digit-set, digit-other}
use pcs_ii.Fs.Lowest.{in_use, balloc-IsFirst}
use pcs_ii.Fs.Bitmap.{balloc-panic}
use pcs_ii.Mkfs.{Disk, sb, mark, mark_from, balloc, mkfs, populate, finish_image, fix_size}

-- Setting one bit, byte by byte.
mark_off : (buf : ℕ → ℕ) (i j : ℕ) → (bit_set buf i ≡ true) ⊎ (j ≢ i / 8) → mark buf i j ≡ buf j
mark_off buf i j (inl z) = elim (Bool-cases (j == i / 8)) [
  | inl e ↦ rw (e, z) refl
  | inr e ↦ rw e refl
]
mark_off buf i j (inr n) = rw (==-ne j (i / 8) n) refl

mark_on :
    (buf : ℕ → ℕ) (i j : ℕ) → bit_set buf i ≡ false → j ≡ i / 8 → mark buf i j ≡ buf j + 2 ^ (i % 8)
mark_on buf i j z e = rw ((==_iff j (i / 8)).1 e, z) refl

clear_digit : (buf : ℕ → ℕ) (i : ℕ) → bit_set buf i ≡ false → digit (buf (i / 8)) (i % 8) ≡ 0
unfolding bit_set
clear_digit buf i z = ground (arith, z)

bit_set-mark_same : (buf : ℕ → ℕ) (i : ℕ) → bit_set (mark buf i) i ≡ true
unfolding bit_set
bit_set-mark_same buf i = elim (Bool-cases (bit_set buf i)) [
  | inl z ↦ ap (λ y. digit y (i % 8) == 1) (mark_off buf i (i / 8) (inl z)) ∙ z
  | inr z ↦
      ap (λ y. digit y (i % 8) == 1) (mark_on buf i (i / 8) z refl)
      ∙ (==_iff (digit (buf (i / 8) + 2 ^ (i % 8)) (i % 8)) 1).1
          (digit-set (i % 8) (buf (i / 8)) (clear_digit buf i z))
]

bit_set-mark_ne : (buf : ℕ → ℕ) (i j : ℕ) → i ≢ j → bit_set (mark buf i) j ≡ bit_set buf j
unfolding bit_set
bit_set-mark_ne buf i j n = elim (Bool-cases (bit_set buf i)) [
  | inl z ↦ ap (λ y. digit y (j % 8) == 1) (mark_off buf i (j / 8) (inl z))
  | inr z ↦ elim (Bool-cases (j / 8 == i / 8)) [
    | inr e ↦ ap (λ y. digit y (j % 8) == 1) (mark_off buf i (j / 8) (inr (ground (arith, e))))
    | inl e ↦
        let same : j / 8 ≡ i / 8 = (==_iff (j / 8) (i / 8)).0 e in
        ap (λ y. digit y (j % 8) == 1) (mark_on buf i (j / 8) z same)
        ∙ ap (λ y. y == 1)
            (digit-other (i % 8) (j % 8) (buf (j / 8))
              (ap (λ y. digit (buf y) (i % 8)) same ∙ clear_digit buf i z) (λ q. n (omega arith)))
  ]
]

-- The bits from `i` to `i + n` are set, and no other.
bit_set-mark_from :
    (n : ℕ) (buf : ℕ → ℕ) (i j : ℕ)
    → ((k : ℕ) → bit_set buf k ≡ ltb k i)
    → bit_set (mark_from n buf i) j ≡ ltb j (i + n)
unfolding mark_from
bit_set-mark_from zero buf i j h = h j ∙ ap (ltb j) (omega arith)
bit_set-mark_from (suc n) buf i j h =
    bit_set-mark_from n (mark buf i) (i + 1) j (λ k. elim (Bool-cases (i == k)) [
      | inl e ↦
          let same : i ≡ k = (==_iff i k).0 e in
          ap (bit_set (mark buf i)) (sym same) ∙ bit_set-mark_same buf i ∙ ground arith
      | inr e ↦ bit_set-mark_ne buf i k (ground (arith, e)) ∙ h k ∙ ground arith
    ])
    ∙ ap (ltb j) (omega arith)

nothing_set : (k : ℕ) → bit_set (λ i. 0) k ≡ ltb k 0
unfolding bit_set
nothing_set k = ground arith

in_use-written :
    (m : ℕ → ℕ) (d : Blocks) (b : ℕ)
    → b < fssize
    → in_use sb (λ c j. if c == sb.bmapstart && ltb j bsize then m j else d c j) b ≡ bit_set m b
unfolding bit_set bblock
in_use-written m d b l =
    let q : b / bpb ≡ 0 = omega arith in
    let r : b % bpb ≡ b = omega arith in
    let t : ltb (b / 8) bsize ≡ true = ground arith in rw (q, r, t) refl

balloc-in_use :
    (used : ℕ) (s t : Disk)
    → balloc used s ≡ ret t
    → (t.freeblock ≡ s.freeblock) × ((b : ℕ) → b < fssize → in_use sb t.blocks b ≡ ltb b used)
unfolding balloc
balloc-in_use used s t h = elim (Bool-cases (ltb used (bsize * 8))) [
  | inr z ↦ absurd (ground (arith, z, h))
  | inl z ↦
      let e : t ≡ record s {
        blocks = λ c j.
            if c == sb.bmapstart && ltb j bsize then mark_from used (λ i. 0) 0 j else s.blocks c j;
      } =
        ground (arith, z, h) in
      (
        ap (λ (d : Disk). d.freeblock) e,
        λ b l.
            ap (λ (d : Disk). in_use sb d.blocks b) e
            ∙ in_use-written (mark_from used (λ i. 0) 0) s.blocks b l
            ∙ bit_set-mark_from used (λ i. 0) 0 b nothing_set
            ∙ ap (ltb b) (omega arith),
      )
]

-- The kernel's count of the clear bits, where the bits below `u` are set.
count_clear_below :
    (n : ℕ) (bytes : ℕ → ℕ) (bi u : ℕ)
    → ((k : ℕ) → bi ≤ k → k < bi + n → bit_set bytes k ≡ ltb k u)
    → count_clear n bytes bi ≡ n - (u - bi)
unfolding count_clear
count_clear_below zero bytes bi u h = omega arith
count_clear_below (suc n) bytes bi u h =
    let rest = count_clear_below n bytes (bi + 1) u (λ k a b. h k (omega arith) (omega arith)) in
    let here : bit_set bytes bi ≡ ltb bi u = h bi (omega arith) (omega arith) in
    elim (Bool-cases (ltb bi u)) [
      | inl z ↦ rw (here ∙ z) (omega (arith, rest, ltb→lt bi u z))
      | inr z ↦ rw (here ∙ z) (ground (arith, rest, z))
    ]

-- What the kernel finds on a disk on which the blocks below `u` are in use.
free_below :
    (d : Blocks) (u : ℕ)
    → ((b : ℕ) → b < fssize → in_use sb d b ≡ ltb b u)
    → (get_fs_stats sb d).free_disk_blocks ≡ fssize - u
unfolding get_fs_stats count_free bblock
free_below d u h =
    let counted = count_clear_below fssize (d sb.bmapstart) 0 u (λ k a b.
      ap (λ x. bit_set (d x) k) (omega arith)
      ∙ ap (λ x. bit_set (d (bblock sb k)) x) (omega arith)
      ∙ h k (omega arith)) in
    omega (arith, counted)

abbrev pub Gives : Blocks → ℕ → Type 0
Gives d u =
    ((fssize ≤ u) × (Fs.balloc sb d ≡ panic)) ⊎ ((d' : Blocks) × (Fs.balloc sb d ≡ ret (u, d')))

balloc-Gives : (d : Blocks) (u : ℕ) → ((b : ℕ) → b < fssize → in_use sb d b ≡ ltb b u) → Gives d u
balloc-Gives d u h = go (Fs.balloc sb d) refl
  where
    go : (o : Outcome (ℕ × Blocks)) → Fs.balloc sb d ≡ o → Gives d u
    go panic e = inl (omega (arith, free_below d u h, (balloc-panic sb d).0 e), e)
    go (ret (b, d')) e =
        let first = balloc-IsFirst sb d d' b e in
        let low : ltb b u ≡ false = sym (h b first.below) ∙ first.refused in
        let same : b ≡ u = elim (Bool-cases (ltb u b)) [
          | inl z ↦ absurd (
              ground (
                arith,
                z,
                first.before u (omega arith) (ltb→lt u b z),
                h u (omega (arith, first.below, ltb→lt u b z)),
              ))
          | inr z ↦ ground (arith, z, low)
        ] in
        inr (d', e ∙ ap (λ x. ret (x, d')) same)

-- If mkfs finishes, the kernel finds on the image that exactly the blocks below the first that mkfs
-- did not take are in use: get_fs_stats counts the others as free, and the first block that balloc
-- gives is that one, unless the disk is full, where it panics.
pub mkfs-Gives :
    (files : List (List ℕ × List (List ℕ))) (s : Disk)
    → mkfs files ≡ ret s
    → ((b : ℕ) → b < fssize → in_use sb s.blocks b ≡ ltb b s.freeblock)
      × ((get_fs_stats sb s.blocks).free_disk_blocks ≡ fssize - s.freeblock)
      × Gives s.blocks s.freeblock
unfolding mkfs finish_image
mkfs-Gives files s h =
    let (s3, e3, h3) = >>=-eq-ret (populate files) finish_image h in
    let (kept, marked) = balloc-in_use (fix_size s3).freeblock (fix_size s3) s h3 in
    let all : (b : ℕ) → b < fssize → in_use sb s.blocks b ≡ ltb b s.freeblock =
      λ b l. marked b l ∙ ap (ltb b) (sym kept) in
    (all, free_below s.blocks s.freeblock all, balloc-Gives s.blocks s.freeblock all)

-- ===== src/Content/Writing.antt =====
-- writei over blocks that the file has, and readi of what it wrote.
use pcs_ii.Base.{
  ℕ, suc, ◌+◌, ◌-◌, ◌*◌, ◌/◌, ◌%◌, ◌^◌, min, ◌≤◌, ◌<◌, ◌≡◌, refl, ap, ◌∙◌, false, ◌&&◌, ◌||◌, ◌⊎◌,
  List, [], ◌∷◌, some, length, get_elem?, get_or, ltb, ◌==◌, arith,
}
use pcs_ii.Fs.{Blocks, bsize}
use pcs_ii.Inode.{done, Inode, State, >>=-done, fetch, fetch-eq}
use pcs_ii.Content.{Devsw, ndirect, nindirect, t_dev, slice, readi, write_from, writei}
use pcs_ii.Content.Reading.{byte_of, readi-eq}
use pcs_ii.Content.Wrote.{IsMapped, with_blocks, Wrote, write_from-Wrote}

slice-list :
    (f : ℕ → ℕ) (off : ℕ) (bs : List ℕ)
    → ((j : ℕ) → j < length bs → f (off + j) ≡ get_or bs j 0)
    → slice f off (length bs) ≡ bs
unfolding slice
slice-list f off [] h = refl
slice-list f off (b ∷ bs) h =
    let first : f off ≡ b = ap f (omega arith) ∙ h 0 (omega arith) in
    rw (first, slice-list f (off + 1) bs (λ j l. ap f (omega arith) ∙ h (suc j) (omega arith))) refl

-- The inode is in the cache and is no device, and the file has all its blocks, no more than 140, each
-- once and apart from the indirect block.
pub record IsFile (s : State) (i : ℕ) (ip : Inode) (k : ℕ) : Type 0 where
  pub in_cache : get_elem? s.cache i ≡ some ip
  pub no_device : (ip.kind == t_dev) ≡ false
  pub mapped : IsMapped s ip k
  pub whole : (ip.size ≤ k * bsize) × (k ≤ ndirect + nindirect)

pub Wrote-IsFile :
    (s : State) (i : ℕ) (ip : Inode) (k off : ℕ) (src : List ℕ) (d : Blocks)
    → IsFile s i ip k
    → Wrote s ip k off src d
    → IsFile (with_blocks s d) i ip k
Wrote-IsFile s i ip k off src d v w = record {
  in_cache = v.in_cache;
  no_device = v.no_device;
  mapped = w.mapped;
  whole = v.whole;
}

pub writei-Wrote :
    (dv : Devsw) (s : State) (i : ℕ) (ip : Inode) (k off : ℕ) (src : List ℕ)
    → IsFile s i ip k
    → off + length src ≤ ip.size
    → (d : Blocks) × (writei dv i src off s ≡ done (some (length src), with_blocks s d))
      × Wrote s ip k off src d
unfolding writei
writei-Wrote dv s i ip k off src v h =
    let (d, e, w) =
      write_from-Wrote (length src) s i ip k off src v.in_cache (omega arith)
        (omega (arith, v.whole.0)) v.mapped in
    let small : (ltb ip.size off
          || ltb ((off + length src) % 2 ^ 32) off
          || ltb ((ndirect + nindirect) * bsize) (off + length src))
        ≡ false =
      ground (arith, v.whole.0, v.whole.1) in
    let stays : (ltb 0 (length src) && ltb ip.size (off + length src)) ≡ false = ground arith in
    (
      d,
      >>=-done (fetch i) _ s s ip (fetch-eq s i ip v.in_cache)
          ∙ rw (v.no_device, small)
              (>>=-done (write_from (length src) i off src) _ s (with_blocks s d) (off + length src)
                  e
                ∙ rw stays refl),
      w,
    )

-- A read of bytes that the file is known to have.
pub readi-list :
    (dv : Devsw) (s : State) (i : ℕ) (ip : Inode) (k off : ℕ) (bs : List ℕ)
    → IsFile s i ip k
    → off + length bs ≤ ip.size
    → ((j : ℕ) → j < length bs → byte_of s ip (off + j) ≡ get_or bs j 0)
    → readi dv i off (length bs) s ≡ done (some bs, s)
readi-list dv s i ip k off bs v h same =
    let fine : (ltb ip.size off || ltb ((off + length bs) % 2 ^ 32) off) ≡ false =
      ground (arith, v.whole.0, v.whole.1) in
    let whole : min (length bs) (ip.size - off) ≡ length bs = omega arith in
    readi-eq dv s i ip off (length bs) v.in_cache v.no_device
      (λ a l. v.mapped.has (a / bsize) (omega (arith, v.whole.0)))
    ∙ ap (λ o. done (o, s))
        (rw fine
          (ap some (ap (slice (byte_of s ip) off) whole ∙ slice-list (byte_of s ip) off bs same)))

-- A write within a file whose blocks are all there writes all its bytes: a read of the same place
-- then returns them, every other byte of the file is as it was, and the file has its blocks as before.
pub readi-writei :
    (dv : Devsw) (s : State) (i : ℕ) (ip : Inode) (k off : ℕ) (src : List ℕ)
    → IsFile s i ip k
    → off + length src ≤ ip.size
    → (s' : State) × (writei dv i src off s ≡ done (some (length src), s'))
      × (readi dv i off (length src) s' ≡ done (some src, s'))
      × ((a : ℕ)
          → a < ip.size
          → (a < off) ⊎ (off + length src ≤ a)
          → byte_of s' ip a ≡ byte_of s ip a)
      × IsFile s' i ip k
readi-writei dv s i ip k off src v h =
    let (d, e, w) = writei-Wrote dv s i ip k off src v h in
    let s' = with_blocks s d in
    let v' = Wrote-IsFile s i ip k off src d v w in
    (
      s',
      e,
      readi-list dv s' i ip k off src v' h
          (λ j l. w.bytes (off + j) (omega (arith, v.whole.0)) ∙ ground arith),
      λ a l o. w.bytes a (omega (arith, v.whole.0)) ∙ ground arith,
      v',
    )

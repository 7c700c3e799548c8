-- ===== src/Content/Reading.antt =====
-- readi against the bytes of a file.
use pcs_ii.Base.{
  ℕ, zero, suc, ◌+◌, ◌-◌, ◌*◌, ◌/◌, ◌%◌, ◌^◌, min, ◌≤◌, ◌<◌, ◌≡◌, ◌≢◌, refl, ap, ◌∙◌, sym, false,
  ◌||◌, Bool-cases, inl, inr, ◌⊎◌, ◌∷◌, ◌++◌, none, some, get_elem?, get_or, ltb, ◌==◌, ==-ne,
  lt→ltb, if◌then◌else◌, arith,
}
use pcs_ii.Fs.{bsize}
use pcs_ii.Inode.{done, Inode, State, >>=-done, fetch, fetch-eq, word_at}
use pcs_ii.Content.{
  Devsw, ndirect, nindirect, t_dev, direct, indirect, bmap, slice, read_from, readi,
}

-- The block of the file's block number `bn`, and 0 where there is none.
abbrev pub addr_of : State → Inode → ℕ → ℕ
addr_of s ip bn =
    if ltb bn ndirect
    then get_or ip.addrs bn 0
    else word_at 4 (s.blocks (get_or ip.addrs ndirect 0)) ((bn - ndirect) * 4)

pub record HasBlock (s : State) (ip : Inode) (bn : ℕ) : Type 0 where
  pub in_file : bn < ndirect + nindirect
  pub has_indirect : (bn < ndirect) ⊎ (get_or ip.addrs ndirect 0 ≢ 0)
  pub has_addr : addr_of s ip bn ≢ 0

direct-eq :
    (s : State) (i : ℕ) (ip : Inode) (bn : ℕ)
    → get_elem? s.cache i ≡ some ip
    → get_or ip.addrs bn 0 ≢ 0
    → direct i bn s ≡ done (get_or ip.addrs bn 0, s)
unfolding direct fetch
direct-eq s i ip bn e h =
    >>=-done (fetch i) _ s s ip (fetch-eq s i ip e) ∙ rw (==-ne (get_or ip.addrs bn 0) 0 h) refl

indirect-eq :
    (s : State) (b bn : ℕ)
    → word_at 4 (s.blocks b) (bn * 4) ≢ 0
    → indirect b bn s ≡ done (word_at 4 (s.blocks b) (bn * 4), s)
unfolding indirect
indirect-eq s b bn h = rw (==-ne (word_at 4 (s.blocks b) (bn * 4)) 0 h) refl

pub bmap-eq :
    (s : State) (i : ℕ) (ip : Inode) (bn : ℕ)
    → get_elem? s.cache i ≡ some ip
    → HasBlock s ip bn
    → bmap i bn s ≡ done (addr_of s ip bn, s)
unfolding bmap
bmap-eq s i ip bn e h = elim (Bool-cases (ltb bn ndirect)) [
  | inl l ↦
      let a : get_or ip.addrs bn 0 ≢ 0 = ground (arith, h.has_addr, l) in
      rw l (direct-eq s i ip bn e a)
  | inr l ↦
      let b : get_or ip.addrs ndirect 0 ≢ 0 = ground (arith, h.has_indirect, l) in
      let c : word_at 4 (s.blocks (get_or ip.addrs ndirect 0)) ((bn - ndirect) * 4) ≢ 0 =
        ground (arith, h.has_addr, l) in
      rw (l, lt→ltb (bn - ndirect) nindirect (ground (arith, h.in_file)))
        (>>=-done (direct i ndirect) (λ b. indirect b (bn - ndirect)) s s
            (get_or ip.addrs ndirect 0) (direct-eq s i ip ndirect e b)
          ∙ indirect-eq s (get_or ip.addrs ndirect 0) (bn - ndirect) c)
]

-- The byte of the file at an offset.
abbrev pub byte_of : State → Inode → ℕ → ℕ
byte_of s ip a = s.blocks (addr_of s ip (a / bsize)) (a % bsize)

slice-cong :
    (f g : ℕ → ℕ) (a b n : ℕ)
    → ((j : ℕ) → j < n → f (a + j) ≡ g (b + j))
    → slice f a n ≡ slice g b n
unfolding slice
slice-cong f g a b zero h = refl
slice-cong f g a b (suc n) h =
    let first : f a ≡ g b = ap f (omega arith) ∙ h 0 (omega arith) ∙ ap g (omega arith) in
    rw
      (
        first,
        slice-cong f g (a + 1) (b + 1) n
            (λ j l. ap f (omega arith) ∙ h (suc j) (omega arith) ∙ ap g (omega arith)),
      )
      refl

slice-append : (f : ℕ → ℕ) (a m n : ℕ) → slice f a m ++ slice f (a + m) n ≡ slice f a (m + n)
unfolding slice
slice-append f a zero n =
    ap (λ (b : ℕ). slice f b n) {x = a + 0} {y = a} (omega arith)
    ∙ ap (slice f a) {x = n} {y = 0 + n} (omega arith)
slice-append f a (suc m) n =
    ap (λ bs. f a ∷ (slice f (a + 1) m ++ bs))
      (ap (λ (b : ℕ). slice f b n) {x = a + suc m} {y = a + 1 + m} (omega arith))
    ∙ ap (λ bs. f a ∷ bs) (slice-append f (a + 1) m n)
    ∙ ap (slice f a) {x = suc (m + n)} {y = suc m + n} (omega arith)

-- The bytes of one block of the file.
pub byte_of_same :
    (s : State) (ip : Inode) (off j : ℕ)
    → off % bsize + j < bsize
    → byte_of s ip (off + j) ≡ s.blocks (addr_of s ip (off / bsize)) (off % bsize + j)
byte_of_same s ip off j h =
    let q : (off + j) / bsize ≡ off / bsize = omega arith in
    let r : (off + j) % bsize ≡ off % bsize + j = omega arith in
    ap (λ (k : ℕ). s.blocks (addr_of s ip k) ((off + j) % bsize)) q
    ∙ ap (s.blocks (addr_of s ip (off / bsize))) r

pub read_from-eq :
    (f : ℕ) (s : State) (i : ℕ) (ip : Inode) (off n : ℕ)
    → get_elem? s.cache i ≡ some ip
    → n ≤ f
    → ((a : ℕ) → off ≤ a → a < off + n → HasBlock s ip (a / bsize))
    → read_from f i off n s ≡ done (slice (byte_of s ip) off n, s)
unfolding read_from
read_from-eq zero s i ip off n e l h = let z : n ≡ 0 = omega arith in rw z refl
read_from-eq (suc f) s i ip off zero e l h = refl
read_from-eq (suc f) s i ip off (suc n) e l h =
    let m = min (suc n) (bsize - off % bsize) in
    let b = addr_of s ip (off / bsize) in
    let bytes = slice (byte_of s ip) in
    let here = bmap-eq s i ip (off / bsize) e (h off (omega arith) (omega arith)) in
    let rest =
      read_from-eq f s i ip (off + m) (suc n - m) e (omega arith)
        (λ a x y. h a (omega arith) (omega arith)) in
    let front =
      slice-cong (s.blocks b) (byte_of s ip) (off % bsize) off m
        (λ j x. sym (byte_of_same s ip off j (omega arith))) in
    rw (==-ne (suc n) 0 (omega arith)) (
      >>=-done (bmap i (off / bsize)) _ s s b here
      ∙ >>=-done (read_from f i (off + m) (suc n - m)) _ s s (bytes (off + m) (suc n - m)) rest
      ∙ ap (λ bs. done (bs ++ bytes (off + m) (suc n - m), s)) front
      ∙ ap (λ bs. done (bs, s))
          (slice-append (byte_of s ip) off m (suc n - m)
            ∙ ap (bytes off) {x = m + (suc n - m)} {y = suc n} (omega arith)))

-- If the inode is in the cache and no block below its size is missing, a read of a file or a
-- directory changes nothing. It fails if the offset lies past the end, or if offset and length
-- exceed 32 bits; otherwise it returns the bytes of the file from the offset on, n of them or as
-- many as there are up to the end.
pub readi-eq :
    (dv : Devsw) (s : State) (i : ℕ) (ip : Inode) (off n : ℕ)
    → get_elem? s.cache i ≡ some ip
    → (ip.kind == t_dev) ≡ false
    → ((a : ℕ) → a < ip.size → HasBlock s ip (a / bsize))
    → readi dv i off n s
      ≡ done (
        (if ltb ip.size off || ltb ((off + n) % 2 ^ 32) off
            then none
            else some (slice (byte_of s ip) off (min n (ip.size - off)))),
        s,
      )
unfolding readi fetch
readi-eq dv s i ip off n e d h =
    >>=-done (fetch i) _ s s ip (fetch-eq s i ip e)
    ∙ rw d (elim (Bool-cases (ltb ip.size off || ltb ((off + n) % 2 ^ 32) off)) [
      | inl x ↦ rw x refl
      | inr x ↦
          let k : ℕ = if ltb ip.size (off + n) then ip.size - off else n in
          let same : k ≡ min n (ip.size - off) = ground (arith, x) in
          rw x (
            >>=-done (read_from n i off k) _ s s (slice (byte_of s ip) off k)
              (read_from-eq n s i ip off k e (ground (arith, x)) (λ a y z. h a (ground (arith, x))))
            ∙ ap (λ (q : ℕ). done (some (slice (byte_of s ip) off q), s)) same)
    ])

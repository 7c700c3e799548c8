-- ===== src/Content/Wrote.antt =====
-- The blocks of a file that has its blocks, while writei writes to them.
use pcs_ii.Base.{
  ℕ, zero, suc, ◌+◌, ◌-◌, ◌*◌, ◌/◌, ◌%◌, min, ◌≤◌, ◌<◌, ◌≡◌, ◌≢◌, refl, ap, ◌∙◌, sym, fun_ext, ◌&&◌,
  Bool-cases, inl, inr, List, [], ◌∷◌, some, length, take, drop, length-take, length-drop,
  get_or-take, get_or-drop, get_elem?, get_or, ltb, leb, ◌==◌, ==-ne, ==_iff, ==-refl,
  if◌then◌else◌, arith,
}
use pcs_ii.Fs.{Blocks, bsize}
use pcs_ii.Inode.{done, Inode, State, >>=-done, word_at, put_bytes}
use pcs_ii.Content.{ndirect, bmap, write_from}
use pcs_ii.Content.Reading.{addr_of, HasBlock, byte_of, bmap-eq}

-- The first `k` blocks of the file are there, each once, and none of them is the indirect block.
pub record IsMapped (s : State) (ip : Inode) (k : ℕ) : Type 0 where
  pub has : (bn : ℕ) → bn < k → HasBlock s ip bn
  pub distinct : (x y : ℕ) → x < k → y < k → addr_of s ip x ≡ addr_of s ip y → x ≡ y
  pub apart : (bn : ℕ) → bn < k → addr_of s ip bn ≢ get_or ip.addrs ndirect 0

put_bytes-other :
    (d : Blocks) (b off : ℕ) (bs : List ℕ) (c : ℕ) → c ≢ b → put_bytes d b off bs c ≡ d c
unfolding put_bytes
put_bytes-other d b off bs c h = fun_ext λ j. rw (==-ne c b h) refl

put_bytes_self :
    (d : Blocks) (b off : ℕ) (bs : List ℕ) (j : ℕ)
    → put_bytes d b off bs b j
      ≡ (if leb off j && ltb j (off + length bs) then get_or bs (j - off) 0 else d b j)
unfolding put_bytes
put_bytes_self d b off bs j = rw (==-refl b) refl

abbrev pub with_blocks : State → Blocks → State
with_blocks s d = record s { blocks = d }

module _ (s : State) (ip : Inode) (k : ℕ) (mapped : IsMapped s ip k) (bn : ℕ) (in_range : bn < k)
    (off : ℕ) (bs : List ℕ) where
  abbrev written : State
  written = with_blocks s (put_bytes s.blocks (addr_of s ip bn) off bs)

  addr_of-written : (x : ℕ) → addr_of written ip x ≡ addr_of s ip x
  addr_of-written x =
      ap
        (λ (f : ℕ → ℕ).
          if ltb x ndirect then get_or ip.addrs x 0 else word_at 4 f ((x - ndirect) * 4))
        (put_bytes-other s.blocks (addr_of s ip bn) off bs (get_or ip.addrs ndirect 0)
          (λ e. mapped.apart bn in_range (sym e)))

  byte_of-written :
      (a : ℕ)
      → a / bsize < k
      → byte_of written ip a ≡ (
          if (a / bsize == bn) && leb off (a % bsize) && ltb (a % bsize) (off + length bs)
          then get_or bs (a % bsize - off) 0
          else byte_of s ip a)
  byte_of-written a h =
      ap (λ (c : ℕ). put_bytes s.blocks (addr_of s ip bn) off bs c (a % bsize))
        (addr_of-written (a / bsize))
      ∙ elim (Bool-cases (a / bsize == bn)) [
        | inl e ↦
            let same : a / bsize ≡ bn = (==_iff (a / bsize) bn).0 e in
            ap (λ (x : ℕ). put_bytes s.blocks (addr_of s ip bn) off bs (addr_of s ip x) (a % bsize))
              same
            ∙ put_bytes_self s.blocks (addr_of s ip bn) off bs (a % bsize)
            ∙ ap
                (λ (x : ℕ).
                  if leb off (a % bsize) && ltb (a % bsize) (off + length bs)
                  then get_or bs (a % bsize - off) 0
                  else s.blocks (addr_of s ip x) (a % bsize))
                (sym same)
            ∙ rw e refl
        | inr e ↦
            ap (λ (f : ℕ → ℕ). f (a % bsize))
              (put_bytes-other s.blocks (addr_of s ip bn) off bs (addr_of s ip (a / bsize))
                (λ x. let y = mapped.distinct (a / bsize) bn h in_range x in ground (arith, y, e)))
            ∙ rw e refl
      ]

  written-IsMapped : IsMapped written ip k
  written-IsMapped = record {
    has = λ x l.
        let h = mapped.has x l in
        record {
          in_file = h.in_file;
          has_indirect = h.has_indirect;
          has_addr = λ z. h.has_addr (sym (addr_of-written x) ∙ z);
        };
    distinct =
        λ x y l m e. mapped.distinct x y l m (sym (addr_of-written x) ∙ e ∙ addr_of-written y);
    apart = λ x l e. mapped.apart x l (sym (addr_of-written x) ∙ e);
  }

-- What a run of the loop of writei leaves of the blocks.
pub record Wrote (s : State) (ip : Inode) (k off : ℕ) (src : List ℕ) (d : Blocks) : Type 0 where
  pub mapped : IsMapped (with_blocks s d) ip k
  pub bytes :
      (a : ℕ)
      → a / bsize < k
      → byte_of (with_blocks s d) ip a
        ≡ (if leb off a && ltb a (off + length src) then get_or src (a - off) 0 else byte_of s ip a)

-- One round, and then the rest.
Wrote-round :
    (s : State) (ip : Inode) (k off m : ℕ) (src : List ℕ) (d : Blocks) (mapped : IsMapped s ip k)
    (l : off / bsize < k)
    → m ≡ min (length src) (bsize - off % bsize)
    → Wrote
        (written s ip k mapped (off / bsize) l (off % bsize) (take m src))
        ip
        k
        (off + m)
        (drop m src)
        d
    → Wrote s ip k off src d
Wrote-round s ip k off m src d mapped l e w = record {
  mapped = w.mapped;
  bytes = λ a h.
      w.bytes a h
      ∙ ap
          (λ (v : ℕ).
            if leb (off + m) a && ltb a (off + m + length (drop m src))
            then get_or (drop m src) (a - (off + m)) 0
            else v)
          (byte_of-written s ip k mapped (off / bsize) l (off % bsize) (take m src) a h)
      ∙ ground (
        arith,
        length-take m src,
        length-drop m src,
        get_or-take m src (a - off) 0,
        get_or-take m src (a % bsize - off % bsize) 0,
        get_or-drop m src (a - (off + m)) 0,
      );
}

pub write_from-Wrote :
    (f : ℕ) (s : State) (i : ℕ) (ip : Inode) (k off : ℕ) (src : List ℕ)
    → get_elem? s.cache i ≡ some ip
    → length src ≤ f
    → off + length src ≤ k * bsize
    → IsMapped s ip k
    → (d : Blocks) × (write_from f i off src s ≡ done (off + length src, with_blocks s d))
      × Wrote s ip k off src d
unfolding write_from
write_from-Wrote zero s i ip k off [] e l h g = (
  s.blocks,
  ap (λ (n : ℕ). done (n, s)) (omega arith),
  record { mapped = g; bytes = λ a x. ground arith },
)
write_from-Wrote zero s i ip k off (c ∷ cs) e l h g = absurd (omega arith)
write_from-Wrote (suc f) s i ip k off [] e l h g = (
  s.blocks,
  ap (λ (n : ℕ). done (n, s)) (omega arith),
  record { mapped = g; bytes = λ a x. ground arith },
)
write_from-Wrote (suc f) s i ip k off (c ∷ cs) e l h g =
    let src = c ∷ cs in
    let m = min (length src) (bsize - off % bsize) in
    let bn = off / bsize in
    let x : bn < k = omega arith in
    let s1 = written s ip k g bn x (off % bsize) (take m src) in
    let rest =
      write_from-Wrote f s1 i ip k (off + m) (drop m src) e (omega (arith, length-drop m src))
        (omega (arith, length-drop m src))
        (written-IsMapped s ip k g bn x (off % bsize) (take m src)) in
    (
      rest.0,
      rw (==-ne (length src) 0 (omega arith)) (
          >>=-done (bmap i bn) _ s s (addr_of s ip bn) (bmap-eq s i ip bn e (g.has bn x))
          ∙ rest.1
          ∙ ap (λ (n : ℕ). done (n, with_blocks s rest.0)) {x = off + m + length (drop m src)}
              {y = off + length src} (omega (arith, length-drop m src))),
      Wrote-round s ip k off m src rest.0 g x refl rest.2,
    )

-- ===== src/Fileio/Loops.antt =====
-- The loop of filewrite over its pieces, and one read.
use pcs_ii.Base.{
  ℕ, zero, suc, ◌+◌, ◌-◌, ◌/◌, ◌%◌, ◌^◌, ◌≤◌, ◌<◌, ◌≡◌, refl, ap, ◌∙◌, Bool, true, false, ◌&&◌,
  List, [], ◌∷◌, Option, none, some, length, take, drop, length-take, length-drop, get_or-take,
  get_or-drop, get_or, ltb, leb, ◌==◌, ==-refl, ==-ne, if◌then◌else◌, arith,
}
use pcs_ii.Spinlock.{Sleeplock}
use pcs_ii.Fs.{Blocks, bsize}
use pcs_ii.Inode.{done, Inode, State, M, pure, fail, ◌>>=◌, ◌>>◌, >>=-done, ilock, iunlock}
use pcs_ii.Content.{Devsw, readi, writei}
use pcs_ii.Content.Reading.{byte_of}
use pcs_ii.Content.Wrote.{Wrote, with_blocks}
use pcs_ii.Content.Writing.{IsFile, Wrote-IsFile, writei-Wrote, readi-list}
use pcs_ii.File.{File, fd_inode, max_piece}
use pcs_ii.Fileio.{write_pieces}
use pcs_ii.Fileio.Locks.{
  IsIdle, with_lock, relocked, taken_by, free, ilock-taken_by, iunlock-free, IsFile-relocked,
}

-- The state after one piece.
abbrev after : State → ℕ → Blocks → State
after s i d = relocked (with_blocks (relocked s i (taken_by s.pid)) d) i free

-- One piece: the inode is locked, written and unlocked.
piece :
    {B : Type 0} (dv : Devsw) (s : State) (i : ℕ) (ip : Inode) (k off : ℕ) (src : List ℕ)
    (rest : Option ℕ → M B)
    → IsFile s i ip k
    → IsIdle ip
    → off + length src ≤ ip.size
    → (d : Blocks) × ((ilock i >> (writei dv i src off >>= λ r. iunlock i >> rest r)) s
        ≡ rest (some (length src)) (after s i d))
      × Wrote (relocked s i (taken_by s.pid)) (with_lock (taken_by s.pid) ip) k off src d
piece dv s i ip k off src rest v h l =
    let s1 = relocked s i (taken_by s.pid) in
    let ip1 = with_lock (taken_by s.pid) ip in
    let v1 = IsFile-relocked s i ip k (taken_by s.pid) v in
    let (d, e, w) = writei-Wrote dv s1 i ip1 k off src v1 l in
    (
      d,
      >>=-done (ilock i) _ s s1 tt (ilock-taken_by s i ip v.in_cache h)
          ∙ >>=-done (writei dv i src off) _ s1 (with_blocks s1 d) (some (length src)) e
          ∙ >>=-done (iunlock i) _ (with_blocks s1 d) (after s i d) tt
              (iunlock-free (with_blocks s1 d) i ip1 v1.in_cache h.used refl),
      w,
    )

-- What a run of the loop leaves: the file, unlocked, with the bytes from `off` on.
pub record Leaves (s s' : State) (i : ℕ) (ip : Inode) (k off : ℕ) (src : List ℕ) : Type 0 where
  pub lock : Sleeplock
  pub file : IsFile s' i (with_lock lock ip) k
  pub unlocked : lock.locked ≡ false
  pub bytes :
      (a : ℕ)
      → a / bsize < k
      → byte_of s' ip a
        ≡ (if leb off a && ltb a (off + length src) then get_or src (a - off) 0 else byte_of s ip a)

-- Nothing is left to write.
Leaves-end :
    (s : State) (i : ℕ) (ip : Inode) (k off : ℕ)
    → IsFile s i ip k
    → IsIdle ip
    → Leaves s s i ip k off []
Leaves-end s i ip k off v h = record {
  lock = ip.lock;
  file = v;
  unlocked = h.unlocked;
  bytes = λ a l. ground arith;
}

-- One piece, and then the rest.
Leaves-piece :
    (s s' : State) (i : ℕ) (ip : Inode) (k off n : ℕ) (src : List ℕ) (d : Blocks)
    → n ≤ length src
    → Wrote (relocked s i (taken_by s.pid)) (with_lock (taken_by s.pid) ip) k off (take n src) d
    → Leaves (after s i d) s' i (with_lock free ip) k (off + n) (drop n src)
    → Leaves s s' i ip k off src
Leaves-piece s s' i ip k off n src d h w r = record {
  lock = r.lock;
  file = r.file;
  unlocked = r.unlocked;
  bytes = λ a l.
      r.bytes a l
      ∙ ap
          (λ (v : ℕ).
            if leb (off + n) a && ltb a (off + n + length (drop n src))
            then get_or (drop n src) (a - (off + n)) 0
            else v)
          (w.bytes a l)
      ∙ ground (
        arith,
        length-take n src,
        length-drop n src,
        get_or-take n src (a - off) 0,
        get_or-drop n src (a - (off + n)) 0,
      );
}

abbrev piece_size : ℕ → ℕ
piece_size n = if ltb max_piece n then max_piece else n

piece_size_le : (n : ℕ) → 0 < n → (0 < piece_size n) × (piece_size n ≤ n)
piece_size_le n h = (ground arith, ground arith)

-- What filewrite does with the result of writei for a piece of `n` bytes.
abbrev next_piece : Devsw → ℕ → ℕ → ℕ → ℕ → List ℕ → Option ℕ → M (Bool × ℕ)
next_piece dv f i n off src r = elim r [
  | none ↦ pure (false, off)
  | some k ↦ if k == n then write_pieces f dv i (drop n src) ((off + k) % 2 ^ 32) else fail
]

pub write_pieces-Leaves :
    (dv : Devsw) (f : ℕ) (s : State) (i : ℕ) (ip : Inode) (k off : ℕ) (src : List ℕ)
    → IsFile s i ip k
    → IsIdle ip
    → off + length src ≤ ip.size
    → length src < f
    → (s' : State) × (write_pieces f dv i src off s ≡ done ((true, off + length src), s'))
      × Leaves s s' i ip k off src
unfolding write_pieces
write_pieces-Leaves dv zero s i ip k off src v h l m = absurd (omega arith)
write_pieces-Leaves dv (suc f) s i ip k off [] v h l m =
    (s, ap (λ (n : ℕ). done ((true, n), s)) (omega arith), Leaves-end s i ip k off v h)
write_pieces-Leaves dv (suc f) s i ip k off (c ∷ cs) v h l m =
    let src = c ∷ cs in
    let n = piece_size (length src) in
    let (pos_n, le_n) = piece_size_le (length src) (omega arith) in
    let len : length (take n src) ≡ n = length-take n src ∙ omega (arith, le_n) in
    let (d, e, w) =
      piece dv s i ip k off (take n src) (next_piece dv f i n off src) v h
        (omega (arith, len, le_n)) in
    let v' =
      IsFile-relocked (with_blocks (relocked s i (taken_by s.pid)) d) i
        (with_lock (taken_by s.pid) ip) k free
        (Wrote-IsFile (relocked s i (taken_by s.pid)) i (with_lock (taken_by s.pid) ip) k off
          (take n src) d (IsFile-relocked s i ip k (taken_by s.pid) v) w) in
    let (s', r, g) =
      write_pieces-Leaves dv f (after s i d) i (with_lock free ip) k (off + n) (drop n src) v'
        (record { used = h.used; valid = h.valid; unlocked = refl })
        (omega (arith, length-drop n src, le_n)) (omega (arith, length-drop n src, pos_n)) in
    let same : (length (take n src) == n) ≡ true = rw len (==-refl n) in
    let next : (off + length (take n src)) % 2 ^ 32 ≡ off + n =
      omega (arith, len, le_n, v.whole.0, v.whole.1) in
    (
      s',
      rw (==-ne (length src) 0 (omega arith)) (
          e
          ∙ rw (same, next)
              (r ∙ ap (λ (x : ℕ). done ((true, x), s')) (omega (arith, length-drop n src, le_n)))),
      Leaves-piece s s' i ip k off n src d le_n w g,
    )

-- A locked read of bytes that the file is known to have.
pub read_piece :
    {B : Type 0} (dv : Devsw) (s : State) (i : ℕ) (ip : Inode) (k off : ℕ) (bs : List ℕ)
    (rest : Option (List ℕ) → M B)
    → IsFile s i ip k
    → IsIdle ip
    → off + length bs ≤ ip.size
    → ((j : ℕ) → j < length bs → byte_of s ip (off + j) ≡ get_or bs j 0)
    → (ilock i >> (readi dv i off (length bs) >>= λ r. iunlock i >> rest r)) s
      ≡ rest (some bs) (relocked (relocked s i (taken_by s.pid)) i free)
read_piece dv s i ip k off bs rest v h l same =
    let s1 = relocked s i (taken_by s.pid) in
    let ip1 = with_lock (taken_by s.pid) ip in
    let v1 = IsFile-relocked s i ip k (taken_by s.pid) v in
    >>=-done (ilock i) _ s s1 tt (ilock-taken_by s i ip v.in_cache h)
    ∙ >>=-done (readi dv i off (length bs)) _ s1 s1 (some bs)
        (readi-list dv s1 i ip1 k off bs v1 l same)
    ∙ >>=-done (iunlock i) _ s1 (relocked s1 i free) tt
        (iunlock-free s1 i ip1 v1.in_cache h.used refl)

-- The file refers to the inode.
pub record Refers (f : File) (i : ℕ) : Type 0 where
  pub of_kind : f.kind ≡ fd_inode
  pub at_inode : f.ip ≡ i

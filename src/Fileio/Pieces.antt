-- ===== src/Fileio/Pieces.antt =====
-- filewrite in its pieces, and fileread of what it wrote.
use pcs_ii.Base.{
  ℕ, suc, ◌+◌, ◌%◌, ◌^◌, ◌≤◌, ◌<◌, ◌≡◌, refl, ap, ◌∙◌, Bool, true, ◌⊎◌, List, none, some, length,
  get_or, if◌then◌else◌, arith,
}
use pcs_ii.Inode.{done, Inode, State, pure, ◌>>=◌, ◌>>◌, >>=-done, ilock, iunlock}
use pcs_ii.Content.{Devsw, readi}
use pcs_ii.Content.Reading.{byte_of}
use pcs_ii.Content.Writing.{IsFile}
use pcs_ii.Pipe.{Pipe}
use pcs_ii.File.{File}
use pcs_ii.Fileio.{write_pieces, to_inode, filewrite, of_inode, read_offset, fileread}
use pcs_ii.Fileio.Locks.{IsIdle, with_lock, relocked, taken_by, free}
use pcs_ii.Fileio.Loops.{Leaves, write_pieces-Leaves, read_piece, Refers}

-- What the two calls are for an open file of an inode.
filewrite_to :
    (dv : Devsw) (killed : Bool) (f : File) (p : Pipe) (i : ℕ) (src : List ℕ)
    → Refers f i
    → f.writable ≡ true
    → filewrite dv killed f p src ≡ (
        write_pieces (suc (length src)) dv i src f.off >>= λ r.
        pure (to_inode (if r.0 then some (length src) else none) r.1))
unfolding filewrite
filewrite_to dv killed f p i src r w =
    rw (w, r.of_kind) refl
    ∙ ap
        (λ (j : ℕ). write_pieces (suc (length src)) dv j src f.off >>= λ r.
          pure (to_inode (if r.0 then some (length src) else none) r.1))
        r.at_inode

fileread_of :
    (dv : Devsw) (killed : Bool) (f : File) (p : Pipe) (i off n : ℕ)
    → Refers f i
    → f.readable ≡ true
    → f.off ≡ off
    → fileread dv killed f p n
      ≡ (ilock i >> (readi dv i off n >>= λ r. iunlock i >> pure (of_inode r (read_offset off r))))
unfolding fileread
fileread_of dv killed f p i off n r w o =
    rw (w, r.of_kind) refl
    ∙ ap
        (λ (j : ℕ).
          ilock j
          >> (readi dv j f.off n >>= λ r. iunlock j >> pure (of_inode r (read_offset f.off r))))
        r.at_inode
    ∙ ap
        (λ (x : ℕ).
          ilock i >> (readi dv i x n >>= λ r. iunlock i >> pure (of_inode r (read_offset x r))))
        o

filewrite-Leaves :
    (dv : Devsw) (killed : Bool) (f : File) (p : Pipe) (s : State) (i : ℕ) (ip : Inode) (k : ℕ)
    (src : List ℕ)
    → Refers f i
    → f.writable ≡ true
    → IsFile s i ip k
    → IsIdle ip
    → f.off + length src ≤ ip.size
    → (s' : State) × (filewrite dv killed f p src s
        ≡ done (to_inode (some (length src)) (f.off + length src), s'))
      × Leaves s s' i ip k f.off src
filewrite-Leaves dv killed f p s i ip k src r w v h l =
    let (s', e, g) =
      write_pieces-Leaves dv (suc (length src)) s i ip k f.off src v h l (omega arith) in
    (
      s',
      ap (λ m. m s) (filewrite_to dv killed f p i src r w)
          ∙ (>>=-done (write_pieces (suc (length src)) dv i src f.off) _ s s'
              (true, f.off + length src) e),
      g,
    )

-- A write through an open file, in as many pieces as it takes, to a place within a file on the disk
-- that nobody has locked: all of it is written, and the offset is past it. A read by an open file of the same
-- inode at the place then returns what was written, and the other bytes of the file are as before.
pub fileread-filewrite :
    (dv : Devsw) (killed : Bool) (f g : File) (p : Pipe) (s : State) (i : ℕ) (ip : Inode) (k : ℕ)
    (src : List ℕ)
    → Refers f i
    → Refers g i
    → f.writable ≡ true
    → g.readable ≡ true
    → g.off ≡ f.off
    → IsFile s i ip k
    → IsIdle ip
    → f.off + length src ≤ ip.size
    → (s' : State) × (s'' : State) × (filewrite dv killed f p src s
        ≡ done (to_inode (some (length src)) (f.off + length src), s'))
      × (fileread dv killed g p (length src) s'
          ≡ done (of_inode (some src) (f.off + length src), s''))
      × ((a : ℕ)
          → a < ip.size
          → (a < f.off) ⊎ (f.off + length src ≤ a)
          → byte_of s'' ip a ≡ byte_of s ip a)
fileread-filewrite dv killed f g p s i ip k src r q w rd o v h l =
    let (s', e, x) = filewrite-Leaves dv killed f p s i ip k src r w v h l in
    let ip' = with_lock x.lock ip in
    let h' : IsIdle ip' = record { used = h.used; valid = h.valid; unlocked = x.unlocked } in
    let bytes : (j : ℕ) → j < length src → byte_of s' ip' (f.off + j) ≡ get_or src j 0 =
      λ j m. x.bytes (f.off + j) (omega (arith, v.whole.0)) ∙ ground arith in
    let read =
      read_piece dv s' i ip' k f.off src (λ b. pure (of_inode b (read_offset f.off b))) x.file h' l
        bytes in
    let s'' = relocked (relocked s' i (taken_by s'.pid)) i free in
    let next : (f.off + length src) % 2 ^ 32 ≡ f.off + length src =
      omega (arith, v.whole.0, v.whole.1) in
    (
      s',
      s'',
      e,
      ap (λ m. m s') (fileread_of dv killed g p i f.off (length src) q rd o)
          ∙ (read ∙ ap (λ (n : ℕ). done (of_inode (some src) n, s'')) next),
      λ a m y. x.bytes a (omega (arith, v.whole.0)) ∙ ground arith,
    )

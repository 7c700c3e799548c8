-- ===== src/Inode.antt =====
-- fs.c: the inodes on the disk and the cache of them in memory. There is one disk, whose blocks are
-- what bread returns; log_write and brelse keep them. A pointer to an inode is its slot in the cache,
-- and never null. A routine is the run of one process, `pid`, between two context switches: `waits`
-- is where it would sleep for a lock that another holds.
pub mod Cached
mod Tests
use pcs_ii.Base.{
  ◌≡◌, refl, ℕ, zero, suc, ◌+◌, ◌-◌, ◌*◌, ◌/◌, ◌%◌, ◌^◌, Bool, true, false, not, ◌&&◌, ◌||◌, List,
  [], ◌∷◌, ◌++◌, Option, none, some, length, get_elem?, get_or, modify, replicate, ltb, leb, ◌==◌,
  if◌then◌else◌,
}
use pcs_ii.Base.Outcome.{Outcome, ret, panic}
use pcs_ii.Spinlock.{Sleeplock, acquiresleep, releasesleep, holdingsleep}
use pcs_ii.Fs.{Superblock, Blocks, ipb, iblock, inode_type, balloc, bfree}

pub data Run {ℓ} (A : Type ℓ) : Type ℓ where
  done : A → Run A
  panics waits : Run A

-- A short, such as `kind` (the field type), is its 16-bit pattern, and `ref` a 32-bit pattern.
pub record Inode : Type 0 where
  pub dev : ℕ
  pub inum : ℕ
  pub ref : ℕ
  pub lock : Sleeplock
  pub valid : Bool
  pub kind : ℕ
  pub major : ℕ
  pub minor : ℕ
  pub nlink : ℕ
  pub size : ℕ
  pub addrs : List ℕ

-- `cwd` is the working directory of the running process.
pub record State : Type 0 where
  pub sb : Superblock
  pub blocks : Blocks
  pub cache : List Inode
  pub pid : ℕ
  pub cwd : ℕ

abbrev pub M : Type 0 → Type 0
M A = State → Run (A × State)

abbrev pub pure : {A : Type 0} → A → M A
pure a s = done (a, s)

infixl 5 ◌>>=◌ ◌>>◌
abbrev pub ◌>>=◌ : {A B : Type 0} → M A → (A → M B) → M B
◌>>=◌ m f s = elim (m s) [ done (a, s') ↦ f a s' | panics ↦ panics | waits ↦ waits ]

pub >>=-done :
    {A B : Type 0} (m : M A) (f : A → M B) (s s' : State) (a : A)
    → m s ≡ done (a, s')
    → (m >>= f) s ≡ f a s'
>>=-done m f s s' a h = rw (h, ◌>>=◌) refl

abbrev pub ◌>>◌ : {B : Type 0} → M (Unit {0}) → M B → M B
m >> k = m >>= λ _. k

abbrev pub fail : {A : Type 0} → M A
fail s = panics

abbrev pub get : M State
get s = done (s, s)

abbrev pub put_blocks : Blocks → M (Unit {0})
put_blocks d s = done (tt, record s { blocks = d })

-- No pointer leaves the table.
unfoldable pub fetch : ℕ → M Inode
fetch i s = elim (get_elem? s.cache i) [ none ↦ panics | some ip ↦ done (ip, s) ]

pub fetch-eq :
    (s : State) (i : ℕ) (ip : Inode) → get_elem? s.cache i ≡ some ip → fetch i s ≡ done (ip, s)
unfolding fetch
fetch-eq s i ip e = rw (e, fetch) refl

unfoldable pub change : ℕ → (Inode → Inode) → M (Unit {0})
change i f s = done (tt, record s { cache = modify s.cache i f })

-- int ref: the tests ref > 0 and ref < 1.
abbrev pub is_pos : ℕ → Bool
is_pos r = ltb 0 r && ltb r (2 ^ 31)

-- `n` bytes from an offset on as a number, the low byte first, and back.
unfoldable pub word_at : ℕ → (ℕ → ℕ) → ℕ → ℕ
word_at zero bytes off = 0
word_at (suc n) bytes off = bytes off + word_at n bytes (off + 1) * 256

unfoldable pub word_bytes : ℕ → ℕ → List ℕ
word_bytes zero v = []
word_bytes (suc n) v = v % 256 ∷ word_bytes n (v / 256)

unfoldable pub words_at : ℕ → (ℕ → ℕ) → ℕ → List ℕ
unfolding word_at
words_at zero bytes off = []
words_at (suc n) bytes off = word_at 4 bytes off ∷ words_at n bytes (off + 4)

unfoldable pub words_bytes : List ℕ → List ℕ
unfolding word_bytes
words_bytes [] = []
words_bytes (w ∷ ws) = word_bytes 4 w ++ words_bytes ws

-- memmove of a list of bytes to an offset of a block.
unfoldable pub put_bytes : Blocks → ℕ → ℕ → List ℕ → Blocks
put_bytes d b off bs c j =
    if c == b && leb off j && ltb j (off + length bs) then get_or bs (j - off) 0 else d c j

-- struct dinode, of 64 bytes.
abbrev pub dinode_at : ℕ → ℕ
dinode_at inum = inum % ipb * 64

unfoldable pub dinode_bytes : Inode → List ℕ
unfolding word_bytes words_bytes
dinode_bytes ip =
    word_bytes 2 ip.kind
    ++ (word_bytes 2 ip.major
        ++ (word_bytes 2 ip.minor
            ++ (word_bytes 2 ip.nlink ++ (word_bytes 4 ip.size ++ words_bytes ip.addrs))))

-- The fields that ilock copies from the disk.
unfoldable pub load_dinode : State → Inode → Inode
unfolding iblock word_at words_at
load_dinode s ip =
    let bytes = s.blocks (iblock s.sb ip.inum) in
    let at = dinode_at ip.inum in
    record ip {
      kind = word_at 2 bytes at;
      major = word_at 2 bytes (at + 2);
      minor = word_at 2 bytes (at + 4);
      nlink = word_at 2 bytes (at + 6);
      size = word_at 4 bytes (at + 8);
      addrs = words_at 13 bytes (at + 12);
      valid = true;
    }

-- What the scan of iget finds: the inode itself, or else the first empty slot, if there is one.
pub data Found : Type 0 where
  cached : ℕ → Found
  recycle : Option ℕ → Found

abbrev pub is_inode : ℕ → ℕ → Inode → Bool
is_inode dev inum ip = is_pos ip.ref && ip.dev == dev && ip.inum == inum

unfoldable pub scan : List Inode → ℕ → ℕ → ℕ → Option ℕ → Found
scan [] dev inum i empty = recycle empty
scan (ip ∷ ips) dev inum i empty =
    let next : Option ℕ = elim empty [
      | none ↦ if ip.ref == 0 then some i else none
      | some e ↦ some e
    ] in
    if is_inode dev inum ip then cached i else scan ips dev inum (i + 1) next

abbrev pub one_more : Inode → Inode
one_more ip = record ip { ref = (ip.ref + 1) % 2 ^ 32 }

abbrev pub one_less : Inode → Inode
one_less ip = record ip { ref = (ip.ref + 2 ^ 32 - 1) % 2 ^ 32 }

abbrev pub renewed : ℕ → ℕ → Inode → Inode
renewed dev inum ip = record ip { dev = dev; inum = inum; ref = 1; valid = false }

unfoldable pub iget : ℕ → ℕ → M ℕ
unfolding scan change
iget dev inum s = elim (scan s.cache dev inum 0 none) [
  | cached i ↦ done (i, record s { cache = modify s.cache i one_more })
  | recycle o ↦ elim o [
    | none ↦ panics
    | some i ↦ done (i, record s { cache = modify s.cache i (renewed dev inum) })
  ]
]

unfoldable pub idup : ℕ → M ℕ
unfolding change
idup i = change i one_more >> pure i

-- acquiresleep and releasesleep of ip->lock.
unfoldable pub lock_inode : ℕ → M (Unit {0})
unfolding fetch change acquiresleep
lock_inode i = do
  ip ← fetch i
  λ s. elim (acquiresleep s.pid ip.lock) [
    | none ↦ waits
    | some lk ↦ change i (λ ip. record ip { lock = lk }) s
  ]

unfoldable pub unlock_inode : ℕ → M (Unit {0})
unfolding change releasesleep
unlock_inode i = change i (λ ip. record ip { lock = releasesleep ip.lock })

-- The rest of ilock once the lock is held: the inode is read from the disk if it has not been.
unfoldable pub read_locked : ℕ → Inode → M (Unit {0})
unfolding change load_dinode
read_locked i ip s =
    if ip.valid
    then pure tt s
    else if (load_dinode s ip).kind == 0
    then panics
    else change i (load_dinode s) s

unfoldable pub ilock : ℕ → M (Unit {0})
unfolding fetch lock_inode read_locked
ilock i = do ip ← fetch i; (if is_pos ip.ref then (lock_inode i >> read_locked i ip) else fail)

unfoldable pub iunlock : ℕ → M (Unit {0})
unfolding fetch unlock_inode holdingsleep
iunlock i = do
  ip ← fetch i
  λ s. if not (holdingsleep s.pid ip.lock) || not (is_pos ip.ref) then panics else unlock_inode i s

unfoldable pub iupdate : ℕ → M (Unit {0})
unfolding fetch put_bytes dinode_bytes iblock
iupdate i = do
  ip ← fetch i
  s ← get
  put_blocks (put_bytes s.blocks (iblock s.sb ip.inum) (dinode_at ip.inum) (dinode_bytes ip))

-- The loop of ialloc, for the `n` inode numbers from `inum` on.
unfoldable pub find_free_inode : ℕ → Superblock → Blocks → ℕ → Option ℕ
unfolding inode_type
find_free_inode zero sb d inum = none
find_free_inode (suc n) sb d inum =
    let rest = find_free_inode n sb d (inum + 1) in
    if inode_type sb d inum == 0 then some inum else rest

unfoldable pub ialloc : ℕ → ℕ → M ℕ
unfolding find_free_inode iget put_bytes word_bytes iblock
ialloc dev kind s = elim (find_free_inode (s.sb.ninodes - 1) s.sb s.blocks 1) [
  | none ↦ panics
  | some inum ↦
      (do
        put_blocks (
            put_bytes s.blocks (iblock s.sb inum) (dinode_at inum)
              (word_bytes 2 kind ++ replicate 62 0))
        iget dev inum)
        s
]

-- balloc and bfree as steps of the state.
unfoldable pub allocate : M ℕ
allocate s = elim (balloc s.sb s.blocks) [
  | ret (b, d) ↦ done (b, record s { blocks = d })
  | panic ↦ panics
]

unfoldable pub release_block : ℕ → M (Unit {0})
release_block b s = elim (bfree s.sb s.blocks b) [
  | ret d ↦ done (tt, record s { blocks = d })
  | panic ↦ panics
]

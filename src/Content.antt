-- ===== src/Content.antt =====
-- fs.c: the content of inodes, block by block. Device files go through the table devsw, whose
-- functions are other modules' and so a parameter: what a read of n bytes delivers, and what a write
-- returns. `none` is -1.
pub mod Reading
pub mod Wrote
pub mod Writing
mod Tests
use pcs_ii.Base.{
  ℕ, zero, suc, ◌+◌, ◌-◌, ◌*◌, ◌/◌, ◌%◌, ◌^◌, min, Bool, true, false, not, ◌&&◌, ◌||◌, List, [],
  ◌∷◌, ◌++◌, Option, none, some, length, get_or, set, take, drop, modify, ltb, leb, ◌==◌,
  if◌then◌else◌,
}
use pcs_ii.Spinlock.{releasesleep, acquiresleep}
use pcs_ii.Fs.{bsize, iblock}
use pcs_ii.Inode.{
  Run, done, panics, waits, Inode, State, M, pure, ◌>>=◌, ◌>>◌, get, put_blocks, fetch, change,
  word_at, word_bytes, put_bytes, iupdate, one_less, lock_inode, unlock_inode, iunlock, allocate,
  release_block,
}

abbrev pub ndirect : ℕ
ndirect = 12

abbrev pub nindirect : ℕ
nindirect = 128

-- T_DIR, T_FILE and T_DEV.
abbrev pub t_dir : ℕ
t_dir = 1

abbrev pub t_file : ℕ
t_file = 2

abbrev pub t_dev : ℕ
t_dev = 3

pub record Devsw : Type 0 where
  pub read : ℕ → Option (ℕ → Option (List ℕ))
  pub write : ℕ → Option (List ℕ → Option ℕ)

-- An entry of ip->addrs; where it is 0, a block is allocated and entered.
unfoldable pub direct : ℕ → ℕ → M ℕ
unfolding fetch change allocate
direct i bn = do
  ip ← fetch i
  (if get_or ip.addrs bn 0 == 0
      then (do
        addr ← allocate
        change i (λ ip. record ip { addrs = set ip.addrs bn addr })
        pure addr)
      else pure (get_or ip.addrs bn 0))

-- An entry of the indirect block `b`.
unfoldable pub indirect : ℕ → ℕ → M ℕ
unfolding allocate put_bytes word_at word_bytes
indirect b bn = do
  s ← get
  (if word_at 4 (s.blocks b) (bn * 4) == 0
      then (do
        addr ← allocate
        s' ← get
        put_blocks (put_bytes s'.blocks b (bn * 4) (word_bytes 4 addr))
        pure addr)
      else pure (word_at 4 (s.blocks b) (bn * 4)))

unfoldable pub bmap : ℕ → ℕ → M ℕ
unfolding direct indirect
bmap i bn =
    if ltb bn ndirect
    then direct i bn
    else if ltb (bn - ndirect) nindirect
    then (direct i ndirect >>= λ b. indirect b (bn - ndirect))
    else (λ s. panics)

-- bfree of those addresses that are not 0.
unfoldable pub free_addrs : List ℕ → M (Unit {0})
unfolding release_block
free_addrs [] = pure tt
free_addrs (b ∷ bs) = (if b == 0 then pure tt else release_block b) >> free_addrs bs

-- The loop over the `n` entries of the indirect block from entry `j` on.
unfoldable pub free_entries : ℕ → ℕ → ℕ → M (Unit {0})
unfolding free_addrs word_at
free_entries zero b j = pure tt
free_entries (suc n) b j = do
  s ← get
  free_addrs (word_at 4 (s.blocks b) (j * 4) ∷ [])
  free_entries n b (j + 1)

unfoldable pub itrunc : ℕ → M (Unit {0})
unfolding fetch change free_addrs free_entries release_block iupdate
itrunc i = do
  ip ← fetch i
  free_addrs (take ndirect ip.addrs)
  change i (λ ip. record ip {
    addrs = 0 ∷ 0 ∷ 0 ∷ 0 ∷ 0 ∷ 0 ∷ 0 ∷ 0 ∷ 0 ∷ 0 ∷ 0 ∷ 0 ∷ drop ndirect ip.addrs;
  })
  let b = get_or ip.addrs ndirect 0
  (if b == 0 then pure tt else (do
    free_entries nindirect b 0
    release_block b
    change i (λ ip. record ip { addrs = set ip.addrs ndirect 0 })))
  change i (λ ip. record ip { size = 0 })
  iupdate i

-- The inode with no link and no other reference is freed on the disk.
unfoldable pub drop_unlinked : ℕ → M (Unit {0})
unfolding fetch itrunc change iupdate
drop_unlinked i = do
  ip ← fetch i
  (if ip.valid && ip.nlink == 0 && ip.ref == 1
      then (do
        itrunc i
        change i (λ ip. record ip { kind = 0 })
        iupdate i
        change i (λ ip. record ip { valid = false }))
      else pure tt)

unfoldable pub iput : ℕ → M (Unit {0})
unfolding lock_inode drop_unlinked unlock_inode change
iput i = do lock_inode i; drop_unlinked i; unlock_inode i; change i one_less

unfoldable pub iunlockput : ℕ → M (Unit {0})
unfolding iunlock iput
iunlockput i = iunlock i >> iput i

-- struct stat.
pub record Stat : Type 0 where
  pub kind : ℕ
  pub dev : ℕ
  pub ino : ℕ
  pub nlink : ℕ
  pub size : ℕ

unfoldable pub stati : Inode → Stat
stati ip = record { kind = ip.kind; dev = ip.dev; ino = ip.inum; nlink = ip.nlink; size = ip.size }

-- `m` bytes of a block from an offset on.
unfoldable pub slice : (ℕ → ℕ) → ℕ → ℕ → List ℕ
slice bytes off zero = []
slice bytes off (suc m) = bytes off ∷ slice bytes (off + 1) m

-- The loop of readi for the `n` bytes that are left, with fuel for its rounds.
unfoldable pub read_from : ℕ → ℕ → ℕ → ℕ → M (List ℕ)
unfolding bmap slice
read_from zero i off n = pure []
read_from (suc f) i off n =
    let m = min n (bsize - off % bsize) in
    let round : M (List ℕ) = (do
      b ← bmap i (off / bsize)
      s ← get
      rest ← read_from f i (off + m) (n - m)
      pure (slice (s.blocks b) (off % bsize) m ++ rest)) in
    if n == 0 then pure [] else round

-- A device's major number, if devsw has it.
abbrev pub device : {A : Type 0} → (ℕ → Option A) → ℕ → Option A
device f major = if leb (2 ^ 15) major || leb 10 major then none else f major

unfoldable pub readi : Devsw → ℕ → ℕ → ℕ → M (Option (List ℕ))
unfolding fetch read_from
readi dv i off n = do
  ip ← fetch i
  (if ip.kind == t_dev
      then pure (elim (device dv.read ip.major) [ none ↦ none | some f ↦ f n ])
      else if ltb ip.size off || ltb ((off + n) % 2 ^ 32) off
      then pure none
      else (do
        bs ← read_from n i off (if ltb ip.size (off + n) then ip.size - off else n)
        pure (some bs)))

-- The loop of writei for the bytes that are left. It ends with the offset that it reached.
unfoldable pub write_from : ℕ → ℕ → ℕ → List ℕ → M ℕ
unfolding bmap put_bytes
write_from zero i off src = pure off
write_from (suc f) i off src =
    let m = min (length src) (bsize - off % bsize) in
    let round : M ℕ = (do
      b ← bmap i (off / bsize)
      s ← get
      put_blocks (put_bytes s.blocks b (off % bsize) (take m src))
      write_from f i (off + m) (drop m src)) in
    if length src == 0 then pure off else round

unfoldable pub writei : Devsw → ℕ → List ℕ → ℕ → M (Option ℕ)
unfolding fetch write_from change iupdate
writei dv i src off = do
  ip ← fetch i
  (if ip.kind == t_dev
      then pure (elim (device dv.write ip.major) [ none ↦ none | some f ↦ f src ])
      else if ltb ip.size off
          || ltb ((off + length src) % 2 ^ 32) off
          || ltb ((ndirect + nindirect) * bsize) (off + length src)
      then pure none
      else (do
        off' ← write_from (length src) i off src
        (if ltb 0 (length src) && ltb ip.size off'
            then (do change i (λ ip. record ip { size = off' }); iupdate i)
            else pure tt)
        pure (some (length src))))

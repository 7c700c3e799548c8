-- ===== src/Bio.antt =====
-- bio.c: the buffer cache. The doubly linked list of buffers is a list, head.next first, and a buffer
-- keeps its place in bcache.buf as `id`. What bcache.lock brackets is one step; the sleep lock of a
-- buffer is who holds it, and a caller that has to wait for it has already counted itself.
pub mod Unique
mod Tests
use pcs_ii.Base.{
  ℕ, zero, suc, ◌+◌, ◌-◌, ◌%◌, ◌^◌, Bool, true, false, not, ◌&&◌, ◌||◌, List, [], ◌∷◌, Option, none,
  some, ◌==◌, if◌then◌else◌,
}
use pcs_ii.Base.Outcome.{Outcome, ret, panic}

-- `owner` is the pid that holds the buffer's sleep lock.
pub record Buf : Type 0 where
  pub id : ℕ
  pub valid : Bool
  pub dirty : Bool
  pub dev : ℕ
  pub blockno : ℕ
  pub refcnt : ℕ
  pub owner : Option ℕ

abbrev pub fresh_buf : ℕ → Buf
fresh_buf i = record {
  id = i;
  valid = false;
  dirty = false;
  dev = 0;
  blockno = 0;
  refcnt = 0;
  owner = none;
}

-- The loop of binit: each buffer goes to the front.
unfoldable pub link_buffers : ℕ → ℕ → List Buf → List Buf
link_buffers zero i bs = bs
link_buffers (suc n) i bs = link_buffers n (i + 1) (fresh_buf i ∷ bs)

unfoldable pub binit : List Buf
unfolding link_buffers
binit = link_buffers 30 0 []

abbrev pub is_block : ℕ → ℕ → Buf → Bool
is_block dev blockno b = b.dev == dev && b.blockno == blockno

abbrev pub is_free : Buf → Bool
is_free b = b.refcnt == 0 && not b.dirty

-- The scan from head.next on; `some` gives the buffer and the list with its count raised.
unfoldable pub ref_cached : List Buf → ℕ → ℕ → Option (ℕ × List Buf)
ref_cached [] dev blockno = none
ref_cached (b ∷ bs) dev blockno =
    let hit : Option (ℕ × List Buf) = some (b.id, record b { refcnt = b.refcnt + 1 } ∷ bs) in
    let rest : Option (ℕ × List Buf) = elim (ref_cached bs dev blockno) [
      | none ↦ none
      | some (i, bs') ↦ some (i, b ∷ bs')
    ] in
    if is_block dev blockno b then hit else rest

abbrev pub recycled : ℕ → ℕ → Buf → Buf
recycled dev blockno b = record b {
  dev = dev;
  blockno = blockno;
  valid = false;
  dirty = false;
  refcnt = 1;
}

-- The scan from head.prev back: the last buffer that is free is recycled.
unfoldable pub recycle_last : List Buf → ℕ → ℕ → Option (ℕ × List Buf)
recycle_last [] dev blockno = none
recycle_last (b ∷ bs) dev blockno =
    let here : Option (ℕ × List Buf) =
      if is_free b then some (b.id, recycled dev blockno b ∷ bs) else none in
    elim (recycle_last bs dev blockno) [ none ↦ here | some (i, bs') ↦ some (i, b ∷ bs') ]

unfoldable pub bget : List Buf → ℕ → ℕ → Outcome (ℕ × List Buf)
bget bs dev blockno =
    let recycle : Outcome (ℕ × List Buf) = elim (recycle_last bs dev blockno) [
      | none ↦ panic
      | some r ↦ ret r
    ] in
    elim (ref_cached bs dev blockno) [ none ↦ recycle | some r ↦ ret r ]

-- The buffer with the id, and the list without it.
unfoldable pub unlink : List Buf → ℕ → Option (Buf × List Buf)
unlink [] i = none
unlink (b ∷ bs) i =
    let rest : Option (Buf × List Buf) = elim (unlink bs i) [
      | none ↦ none
      | some (c, bs') ↦ some (c, b ∷ bs')
    ] in
    if b.id == i then some (b, bs) else rest

unfoldable pub replace : List Buf → Buf → List Buf
replace [] c = []
replace (b ∷ bs) c = if b.id == c.id then c ∷ bs else b ∷ replace bs c

abbrev pub held_by : Option ℕ → ℕ → Bool
held_by none pid = false
held_by (some q) pid = q == pid

-- brelse by the process `pid`. `refcnt--` is on an unsigned 32-bit number.
unfoldable pub brelse : List Buf → ℕ → ℕ → Outcome (List Buf)
brelse bs i pid = elim (unlink bs i) [
  | none ↦ panic
  | some (b, others) ↦
      let b' : Buf = record b { owner = none; refcnt = (b.refcnt + 2 ^ 32 - 1) % 2 ^ 32 } in
      if not (held_by b.owner pid)
      then panic
      else if b'.refcnt == 0
      then ret (b' ∷ others)
      else ret (replace bs b')
]

-- ===== src/Log.antt =====
-- log.c: the redo log. A block is its words, the header block too. `bufs` is what bread returns for
-- a block, and every bwrite goes to the disk before the next; `trace` lists those writes, so that a
-- crash after any of them can be stated. What log.lock brackets is one step.
pub mod Trace
pub mod Writes
pub mod Booted
pub mod Recovery
pub mod Room
pub mod Reserve
mod Tests
use pcs_ii.Base.{
  ℕ, zero, suc, ◌+◌, ◌-◌, ◌*◌, ◌%◌, ◌^◌, Bool, true, false, not, ◌&&◌, ◌||◌, List, [], ◌∷◌, ◌++◌,
  length, take, ltb, leb, ◌==◌, if◌then◌else◌,
}
use pcs_ii.Base.Outcome.{Outcome, ret, panic, ◌>>=◌}

abbrev pub Block : Type 0
Block = List ℕ

abbrev pub Disk : Type 0
Disk = ℕ → Block

abbrev pub update : Disk → ℕ → Block → Disk
update d b v c = if b == c then v else d c

abbrev pub logsize : ℕ
logsize = 30

abbrev pub maxopblocks : ℕ
maxopblocks = 10

pub record Machine : Type 0 where
  pub disk : Disk
  pub bufs : Disk
  pub trace : List (ℕ × Block)

-- `struct log` without its lock and device; `blocks` is lh.block[0..lh.n).
pub record Log : Type 0 where
  pub start : ℕ
  pub size : ℕ
  pub outstanding : ℕ
  pub committing : Bool
  pub blocks : List ℕ

unfoldable pub bwrite : Machine → ℕ → Block → Machine
bwrite m b v = record {
  disk = update m.disk b v;
  bufs = update m.bufs b v;
  trace = m.trace ++ ((b, v) ∷ []);
}

-- hb->block[i] = block[i], over the words that the block has.
abbrev pub overwrite : List ℕ → Block → Block
overwrite [] ws = ws
overwrite (b ∷ bs) [] = []
overwrite (b ∷ bs) (w ∷ ws) = b ∷ overwrite bs ws

-- The header in a block that held `old`: hb->n and the block numbers.
unfoldable pub encode : List ℕ → Block → Block
encode blocks [] = []
encode blocks (w ∷ ws) = length blocks ∷ overwrite blocks ws

-- The words of the log numbers that read_head copies; the loop has no round for a negative n.
unfoldable pub decode : Block → List ℕ
decode [] = []
decode (n ∷ ws) = if ltb n (2 ^ 31) then take n ws else []

-- The loop of install_trans, from log block `tail` on.
unfoldable pub install_from : Machine → ℕ → ℕ → List ℕ → Machine
install_from m start tail [] = m
install_from m start tail (b ∷ bs) =
    install_from (bwrite m b (m.bufs (start + tail + 1))) start (tail + 1) bs

unfoldable pub install_trans : Machine → Log → Machine
install_trans m l = install_from m l.start 0 l.blocks

unfoldable pub read_head : Machine → Log → Log
unfolding decode
read_head m l = record l { blocks = decode (m.bufs l.start) }

unfoldable pub write_head : Machine → Log → Machine
unfolding encode
write_head m l = bwrite m l.start (encode l.blocks (m.bufs l.start))

unfoldable pub recover_from_log : Machine → Log → Machine × Log
unfolding read_head install_trans write_head
recover_from_log m l =
    let l1 = read_head m l in
    let l2 = record l1 { blocks = [] } in (write_head (install_trans m l1) l2, l2)

-- With the superblock's logstart and nlog. The header of 124 bytes fits a block, so that check passes.
unfoldable pub initlog : Machine → ℕ → ℕ → Machine × Log
unfolding recover_from_log
initlog m logstart nlog =
    recover_from_log m
      (record { start = logstart; size = nlog; outstanding = 0; committing = false; blocks = [] })

-- The loop of write_log, from log block `tail` on.
unfoldable pub write_log_from : Machine → ℕ → ℕ → List ℕ → Machine
write_log_from m start tail [] = m
write_log_from m start tail (b ∷ bs) =
    write_log_from (bwrite m (start + tail + 1) (m.bufs b)) start (tail + 1) bs

unfoldable pub write_log : Machine → Log → Machine
write_log m l = write_log_from m l.start 0 l.blocks

unfoldable pub commit : Machine → Log → Machine × Log
unfolding write_log write_head install_trans
commit m l =
    let l2 = record l { blocks = [] } in
    let done = write_head (install_trans (write_head (write_log m l) l) l) l2 in
    if ltb 0 (length l.blocks) then (done, l2) else (m, l)

pub data Begun : Type 0 where
  begun : Log → Begun
  begin_sleeps : Begun

-- One round of the loop of begin_op.
unfoldable pub begin_op : Log → Begun
begin_op l =
    if l.committing
    then begin_sleeps
    else if ltb logsize (length l.blocks + (l.outstanding + 1) * maxopblocks)
    then begin_sleeps
    else begun (record l { outstanding = l.outstanding + 1 })

-- The first locked part of end_op; the Boolean is do_commit. Where it is false, waiters are woken.
unfoldable pub end_op_locked : Log → Outcome (Bool × Log)
end_op_locked l =
    let left = (l.outstanding + 2 ^ 32 - 1) % 2 ^ 32 in
    let l1 = record l { outstanding = left } in
    if l.committing
    then panic
    else if left == 0
    then ret (true, record l1 { committing = true })
    else ret (false, l1)

unfoldable pub end_op : Machine → Log → Outcome (Machine × Log)
unfolding end_op_locked
end_op m l = end_op_locked l >>= λ r.
    let c = commit m r.1 in
    if r.0 then ret (c.0, record (c.1) { committing = false }) else ret (m, r.1)

abbrev pub has : ℕ → List ℕ → Bool
has b [] = false
has b (c ∷ cs) = c == b || has b cs

-- The modified buffer stays in `bufs`, and is pinned there by B_DIRTY.
unfoldable pub log_write : Machine → Log → ℕ → Block → Outcome (Machine × Log)
log_write m l b v =
    if leb logsize (length l.blocks) || leb (l.size - 1) (length l.blocks)
    then panic
    else if ltb l.outstanding 1
    then panic
    else ret (
      record m { bufs = update m.bufs b v },
      (if has b l.blocks then l else record l { blocks = l.blocks ++ (b ∷ []) }),
    )

-- ===== src/Pipe.antt =====
-- pipe.c. A call that sleeps is cut where it sleeps: what it has yet to do is in its result, and the
-- same function goes on from there when it is woken. Wakeups are listed in order. What p->lock
-- brackets is one step. `n` of piperead and pipewrite is not negative: argptr refuses such sizes.
pub mod Window
pub mod Write
pub mod Read
mod Tests
use pcs_ii.Base.{
  ℕ, zero, suc, ◌+◌, ◌%◌, ◌^◌, Bool, true, false, not, ◌&&◌, ◌||◌, List, [], ◌∷◌, set, get_or, ◌==◌,
  if◌then◌else◌, replicate,
}

abbrev pub pipesize : ℕ
pipesize = 512

-- nread and nwrite are uint and count all bytes ever, modulo 2^32.
pub record Pipe : Type 0 where
  pub buf : List ℕ
  pub nread : ℕ
  pub nwrite : ℕ
  pub readopen : Bool
  pub writeopen : Bool

-- &p->nread, on which readers sleep, and &p->nwrite, on which writers sleep.
pub data Channel : Type 0 where
  readers writers : Channel

-- The fields that pipealloc sets; the bytes are what the page held.
unfoldable pub init : List ℕ → Pipe
init page = record { buf = page; nread = 0; nwrite = 0; readopen = true; writeopen = true }

pub data Wrote : Type 0 where
  wrote : ℕ → Wrote
  write_failed : Wrote
  write_sleeps : List ℕ → ℕ → Wrote

-- p->data[p->nwrite++ % PIPESIZE] = b
unfoldable pub put : Pipe → ℕ → Pipe
put p b = record p { buf = set p.buf (p.nwrite % pipesize) b; nwrite = (p.nwrite + 1) % 2 ^ 32 }

unfoldable pub is_full : Pipe → Bool
is_full p = p.nwrite == (p.nread + pipesize) % 2 ^ 32

-- From the byte `addr[i]` on; the list holds addr[i..n).
unfoldable pub pipewrite_from : Bool → Pipe → List ℕ → ℕ → Wrote × Pipe × List Channel
unfolding put is_full
pipewrite_from killed p [] i = (wrote i, p, readers ∷ [])
pipewrite_from killed p (b ∷ bs) i =
    let rest = pipewrite_from killed (put p b) bs (i + 1) in
    if is_full p
    then (if not p.readopen || killed
        then (write_failed, p, [])
        else (write_sleeps (b ∷ bs) i, p, readers ∷ []))
    else rest

unfoldable pub pipewrite : Bool → Pipe → List ℕ → Wrote × Pipe × List Channel
pipewrite killed p addr = pipewrite_from killed p addr 0

pub data ReadEnd : Type 0 where
  read_bytes : List ℕ → ReadEnd
  read_failed : ReadEnd
  read_sleeps : ReadEnd

unfoldable pub is_empty : Pipe → Bool
is_empty p = p.nread == p.nwrite

-- The byte p->data[p->nread++ % PIPESIZE].
unfoldable pub first : Pipe → ℕ
first p = get_or p.buf (p.nread % pipesize) 0

unfoldable pub advance : Pipe → Pipe
advance p = record p { nread = (p.nread + 1) % 2 ^ 32 }

-- The copying loop of piperead.
unfoldable pub read_loop : ℕ → Pipe → List ℕ × Pipe
unfolding is_empty first advance
read_loop zero p = ([], p)
read_loop (suc n) p =
    let (bs, p') = read_loop n (advance p) in if is_empty p then ([], p) else (first p ∷ bs, p')

unfoldable pub piperead : Bool → Pipe → ℕ → ReadEnd × Pipe × List Channel
unfolding is_empty
piperead killed p n =
    let (bs, p') = read_loop n p in
    if is_empty p && p.writeopen
    then (if killed then (read_failed, p, []) else (read_sleeps, p, []))
    else (read_bytes bs, p', writers ∷ [])

-- The Boolean tells whether the page of the pipe is given to kfree.
unfoldable pub pipeclose : Pipe → Bool → Pipe × Bool × List Channel
pipeclose p writable =
    let p' = if writable then record p { writeopen = false } else record p { readopen = false } in
    (p', not p'.readopen && not p'.writeopen, (if writable then readers else writers) ∷ [])

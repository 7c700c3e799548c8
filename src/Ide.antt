-- ===== src/Ide.antt =====
-- ide.c: the queue of disk requests. A request is the buffer that iderw is given; while it is in the
-- queue its owner sleeps. The drive is hardware: what is written to its ports is a command in the
-- trace, and what it delivers at an interrupt is an argument, `none` where idewait finds an error.
pub mod Order
mod Tests
use pcs_ii.Base.{
  ℕ, ◌+◌, ◌%◌, ◌^◌, Bool, true, false, not, ◌&&◌, ◌||◌, List, [], ◌∷◌, ◌++◌, Option, none, some,
  leb, ◌==◌, if◌then◌else◌,
}
use pcs_ii.Base.Outcome.{Outcome, ret, panic, ◌>>=◌}

-- FSSIZE
abbrev pub fssize : ℕ
fssize = 1000

-- The fields of struct buf that the driver reads, and the number of the buffer.
pub record Request : Type 0 where
  pub id : ℕ
  pub valid : Bool
  pub dirty : Bool
  pub dev : ℕ
  pub blockno : ℕ
  pub bytes : List ℕ

-- What idestart writes to the ports: the drive, the sector of 28 bits, and the data of a write.
pub record Command : Type 0 where
  pub drive : ℕ
  pub sector : ℕ
  pub written : Option (List ℕ)

pub record Ide : Type 0 where
  pub queue : List Request
  pub trace : List Command
  pub finished : List Request

abbrev pub command : Request → Command
command b = record {
  drive = b.dev % 2;
  sector = b.blockno % 2 ^ 28;
  written = if b.dirty then some b.bytes else none;
}

unfoldable pub idestart : Request → Ide → Outcome Ide
idestart b s =
    if leb fssize b.blockno then panic else ret (record s { trace = s.trace ++ (command b ∷ []) })

-- A block is read only into a buffer that is not dirty.
abbrev pub received : Option (List ℕ) → Request → List ℕ
received none b = b.bytes
received (some bytes) b = if b.dirty then b.bytes else bytes

abbrev pub settled : Option (List ℕ) → Request → Request
settled delivered b = record b { bytes = received delivered b; valid = true; dirty = false }

-- The head of the queue, if there is one.
unfoldable pub start_next : List Request → Ide → Outcome Ide
unfolding idestart
start_next [] s = ret s
start_next (b ∷ bs) s = idestart b s

unfoldable pub ideintr : Option (List ℕ) → Ide → Outcome Ide
unfolding start_next
ideintr delivered s = elim s.queue [
  | [] ↦ ret s
  | b ∷ bs ↦
      start_next bs (record s { queue = bs; finished = s.finished ++ (settled delivered b ∷ []) })
]

abbrev pub is_idle : List Request → Bool
is_idle [] = true
is_idle (b ∷ bs) = false

-- iderw up to its sleep. `held` tells whether the caller holds the lock of the buffer.
unfoldable pub iderw : Bool → Bool → Request → Ide → Outcome Ide
unfolding idestart
iderw havedisk1 held b s =
    if not held
    then panic
    else if b.valid && not b.dirty
    then panic
    else if not (b.dev == 0) && not havedisk1
    then panic
    else (let s' = record s { queue = s.queue ++ (b ∷ []) } in
        if is_idle s.queue then idestart b s' else ret s')

-- What happens to the driver: a call of iderw, or an interrupt.
pub data Event : Type 0 where
  request : Bool → Request → Event
  interrupt : Option (List ℕ) → Event

abbrev pub step : Bool → Event → Ide → Outcome Ide
unfolding iderw ideintr
step havedisk1 (request held b) s = iderw havedisk1 held b s
step havedisk1 (interrupt delivered) s = ideintr delivered s

unfoldable pub run : Bool → List Event → Ide → Outcome Ide
unfolding iderw ideintr
run havedisk1 [] s = ret s
run havedisk1 (e ∷ es) s = step havedisk1 e s >>= run havedisk1 es

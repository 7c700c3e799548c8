-- ===== src/Log/Trace.antt =====
-- The writes of the log routines to the disk, as a list.
use pcs_ii.Base.{
  ℕ, ◌+◌, ◌≤◌, ◌<◌, ◌≡◌, refl, ◌∙◌, sym, ◌⊎◌, List, [], ◌∷◌, ◌++◌, map, length, arith, All, ==-ne,
}
use mathlib.Core.List.{append-nil, append_assoc}
use pcs_ii.Log.{Block, Disk, update, Machine, logsize, bwrite, install_from, write_log_from}

abbrev pub apply : List (ℕ × Block) → Disk → Disk
apply [] d = d
apply ((b, v) ∷ ws) d = apply ws (update d b v)

pub apply-append :
    (xs ys : List (ℕ × Block)) (d : Disk) → apply (xs ++ ys) d ≡ apply ys (apply xs d)
apply-append [] ys d = refl
apply-append ((b, v) ∷ xs) ys d = apply-append xs ys (update d b v)

-- Outside the header and the log blocks.
abbrev pub IsHome : ℕ → ℕ → Type 0
IsHome start b = (b < start) ⊎ (start + logsize < b)

-- The log block for each logged block, from log block `tail` on.
abbrev pub log_writes : Disk → ℕ → ℕ → List ℕ → List (ℕ × Block)
log_writes v start tail [] = []
log_writes v start tail (b ∷ bs) = (start + tail + 1, v b) ∷ log_writes v start (tail + 1) bs

-- The home location of each logged block.
abbrev pub home_writes : Disk → List ℕ → List (ℕ × Block)
home_writes v bs = map (λ b. (b, v b)) bs

-- The machine after a list of writes.
abbrev pub wrote : Machine → List (ℕ × Block) → Machine
wrote m ws = record { disk = apply ws m.disk; bufs = apply ws m.bufs; trace = m.trace ++ ws }

pub wrote-nil : (m : Machine) → wrote m [] ≡ m
wrote-nil m = λ i. record { disk = m.disk; bufs = m.bufs; trace = append-nil m.trace i }

pub wrote-cons :
    (m : Machine) (b : ℕ) (v : Block) (ws : List (ℕ × Block))
    → wrote (bwrite m b v) ws ≡ wrote m ((b, v) ∷ ws)
unfolding bwrite
wrote-cons m b v ws = λ i. record {
  disk = apply ws (update m.disk b v);
  bufs = apply ws (update m.bufs b v);
  trace = append_assoc m.trace ((b, v) ∷ []) ws i;
}

pub wrote-append :
    (m : Machine) (xs ys : List (ℕ × Block)) → wrote (wrote m xs) ys ≡ wrote m (xs ++ ys)
wrote-append m xs ys = λ i. record {
  disk = sym (apply-append xs ys m.disk) i;
  bufs = sym (apply-append xs ys m.bufs) i;
  trace = append_assoc m.trace xs ys i;
}

keep_bufs :
    (m : Machine) (v : Disk) (start slot : ℕ) (w : Block) (cs : List ℕ)
    → start ≤ slot
    → slot ≤ start + logsize
    → All (IsHome start) cs
    → All (λ c. m.bufs c ≡ v c) cs
    → All (λ c. (bwrite m slot w).bufs c ≡ v c) cs
unfolding bwrite
keep_bufs m v start slot w [] a b h e = tt
keep_bufs m v start slot w (c ∷ cs) a b h e =
    (rw (==-ne slot c (omega arith)) e.0, keep_bufs m v start slot w cs a b h.1 e.1)

-- write_log writes each logged block as bread returned it before, to the log blocks in order.
pub write_log_from-wrote :
    (m : Machine) (v : Disk) (start tail : ℕ) (bs : List ℕ)
    → length bs + tail ≤ logsize
    → All (IsHome start) bs
    → All (λ b. m.bufs b ≡ v b) bs
    → write_log_from m start tail bs ≡ wrote m (log_writes v start tail bs)
unfolding write_log_from
write_log_from-wrote m v start tail [] l h e = sym (wrote-nil m)
write_log_from-wrote m v start tail (b ∷ bs) l h e = rw e.0 (
    write_log_from-wrote (bwrite m (start + tail + 1) (v b)) v start (tail + 1) bs (omega arith) h.1
      (keep_bufs m v start (start + tail + 1) (v b) bs (omega arith) (omega arith) h.1 e.1)
    ∙ wrote-cons m (start + tail + 1) (v b) (log_writes v start (tail + 1) bs))

-- The log blocks from `tail` on hold what `v` says of the logged blocks.
abbrev pub Logged : Disk → Disk → ℕ → ℕ → List ℕ → Type 0
Logged d v start tail [] = Unit
Logged d v start tail (b ∷ bs) = (d (start + tail + 1) ≡ v b) × Logged d v start (tail + 1) bs

pub Logged-update :
    (d v : Disk) (start tail b : ℕ) (w : Block) (bs : List ℕ)
    → length bs + tail ≤ logsize
    → (b ≤ start + tail) ⊎ (start + logsize < b)
    → Logged d v start tail bs
    → Logged (update d b w) v start tail bs
Logged-update d v start tail b w [] l h g = tt
Logged-update d v start tail b w (c ∷ bs) l h g = (
  rw (==-ne b (start + tail + 1) (omega arith)) g.0,
  Logged-update d v start (tail + 1) b w bs (omega arith) (omega arith) g.1,
)

-- install_trans copies each log block to its home location, in order.
pub install_from-wrote :
    (m : Machine) (v : Disk) (start tail : ℕ) (bs : List ℕ)
    → length bs + tail ≤ logsize
    → All (IsHome start) bs
    → Logged m.bufs v start tail bs
    → install_from m start tail bs ≡ wrote m (home_writes v bs)
unfolding install_from
install_from-wrote m v start tail [] l h g = sym (wrote-nil m)
install_from-wrote m v start tail (b ∷ bs) l h g = rw g.0 (
    install_from-wrote (bwrite m b (v b)) v start (tail + 1) bs (omega arith) h.1 (
      unfold bwrite in
      Logged-update m.bufs v start (tail + 1) b (v b) bs (omega arith) (omega arith) g.1)
    ∙ wrote-cons m b (v b) (home_writes v bs))

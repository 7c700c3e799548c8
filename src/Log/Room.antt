-- ===== src/Log/Room.antt =====
-- The room that the log reserves for the operations that have begun.
use pcs_ii.Base.{
  get_elem?-lt, ℕ, zero, suc, ◌+◌, ◌-◌, ◌*◌, ◌%◌, ◌^◌, ◌≤◌, ◌≡◌, refl, ap, true, false, ◌||◌,
  Bool-cases, inl, inr, List, [], ◌∷◌, length, set, get_elem?, some, ltb, leb, ◌==◌, arith,
  length-append,
}
use pcs_ii.Base.Outcome.{Outcome, ret, panic}
use pcs_ii.Log.{
  Block, Machine, Log, logsize, maxopblocks, begun, begin_op, log_write, has, commit, end_op,
}

-- The blocks that the running operations may still write: one count for each of them.
abbrev pub total : List ℕ → ℕ
total [] = 0
total (r ∷ rs) = r + total rs

-- An operation that keeps below what it reserves.
abbrev pub opblocks : ℕ
opblocks = maxopblocks - 1

-- The log has room for all that the running operations may still write and for one block more for
-- each of them, is not committing, and has at least LOGSIZE blocks, its header included.
pub record HasRoom (l : Log) (left : List ℕ) : Type 0 where
  pub running : l.outstanding ≡ length left
  pub fits : length l.blocks + total left + length left ≤ logsize
  pub few : length left ≤ logsize
  pub open_log : l.committing ≡ false
  pub disk_log : logsize ≤ l.size

abbrev pub AtMost : List ℕ → Type 0
AtMost [] = Unit {0}
AtMost (r ∷ rs) = (r ≤ opblocks) × AtMost rs

total-le : (rs : List ℕ) → AtMost rs → total rs + length rs ≤ length rs * maxopblocks
total-le [] h = omega arith
total-le (r ∷ rs) h = omega (arith, total-le rs h.1)

abbrev pub remove_at : List ℕ → ℕ → List ℕ
remove_at [] i = []
remove_at (r ∷ rs) zero = rs
remove_at (r ∷ rs) (suc i) = r ∷ remove_at rs i

total-set :
    (rs : List ℕ) (i r : ℕ)
    → get_elem? rs i ≡ some (suc r)
    → (total (set rs i r) + 1 ≡ total rs) × (length (set rs i r) ≡ length rs)
total-set [] i r h = absurd (ground arith)
total-set (x ∷ rs) zero r h = ground arith
total-set (x ∷ rs) (suc i) r h = let t = total-set rs i r h in omega arith

pub AtMost-set :
    (rs : List ℕ) (i r : ℕ) → get_elem? rs i ≡ some (suc r) → AtMost rs → AtMost (set rs i r)
AtMost-set [] i r h a = tt
AtMost-set (x ∷ rs) zero r h a = (ground arith, a.1)
AtMost-set (x ∷ rs) (suc i) r h a = (a.0, AtMost-set rs i r h a.1)

total-remove_at :
    (rs : List ℕ) (i r : ℕ)
    → get_elem? rs i ≡ some r
    → (total (remove_at rs i) ≤ total rs) × (length (remove_at rs i) + 1 ≡ length rs)
total-remove_at [] i r h = absurd (ground arith)
total-remove_at (x ∷ rs) zero r h = (omega arith, omega arith)
total-remove_at (x ∷ rs) (suc i) r h =
    let t = total-remove_at rs i r h in (omega arith, omega arith)

pub AtMost-remove_at : (rs : List ℕ) (i : ℕ) → AtMost rs → AtMost (remove_at rs i)
AtMost-remove_at [] i a = tt
AtMost-remove_at (x ∷ rs) zero a = a.1
AtMost-remove_at (x ∷ rs) (suc i) a = (a.0, AtMost-remove_at rs i a.1)

pub begin_op-HasRoom :
    (l l' : Log) (left : List ℕ)
    → HasRoom l left
    → AtMost left
    → begin_op l ≡ begun l'
    → HasRoom l' (opblocks ∷ left)
unfolding begin_op
begin_op-HasRoom l l' left h a e = ground (arith, total-le left a)

-- The call returns, and the log has room for what is left.
abbrev pub Keeps : List ℕ → Outcome (Machine × Log) → Type 0
Keeps left panic = ⊥
Keeps left (ret x) = HasRoom x.1 left

pub log_write-Keeps :
    (m : Machine) (l : Log) (b : ℕ) (v : Block) (left : List ℕ) (i r : ℕ)
    → HasRoom l left
    → get_elem? left i ≡ some (suc r)
    → Keeps (set left i r) (log_write m l b v)
unfolding log_write
log_write-Keeps m l b v left i r h e =
    let t = total-set left i r e in
    let busy = get_elem?-lt left i e in
    let full : (leb logsize (length l.blocks) || leb (l.size - 1) (length l.blocks)) ≡ false =
      ground (arith, h.fits, h.disk_log, t.0, busy) in
    let some_op : ltb l.outstanding 1 ≡ false = ground (arith, h.running, get_elem?-lt left i e) in
    rw (full, some_op)
      (elim (Bool-cases (has b l.blocks)) [
        | inl y ↦ rw y (record {
          few = omega (arith, h.few);
          running = omega arith;
          fits = omega arith;
          open_log = h.open_log;
          disk_log = h.disk_log;
        })
        | inr y ↦ rw y (record {
          few = omega (arith, h.few);
          running = omega arith;
          fits = omega (arith, length-append l.blocks (b ∷ []));
          open_log = h.open_log;
          disk_log = h.disk_log;
        })
      ])

commit_log : (m : Machine) (l : Log) → ((commit m l).1).blocks ≡ []
unfolding commit
commit_log m l = none_left l.blocks refl
  where
    none_left : (bs : List ℕ) → l.blocks ≡ bs → ((commit m l).1).blocks ≡ []
    none_left [] e = ground arith
    none_left (b ∷ bs) e = ground arith

commit_rest :
    (m : Machine) (l : Log)
    → (((commit m l).1).size ≡ l.size) × (((commit m l).1).outstanding ≡ l.outstanding)
unfolding commit
commit_rest m l = ground arith

pub end_op-Keeps :
    (m : Machine) (l : Log) (left : List ℕ) (i r : ℕ)
    → HasRoom l left
    → get_elem? left i ≡ some r
    → Keeps (remove_at left i) (end_op m l)
unfolding end_op
end_op-Keeps m l left i r h e =
    let t = total-remove_at left i r e in
    let down : (l.outstanding + 2 ^ 32 - 1) % 2 ^ 32 ≡ length (remove_at left i) =
      omega (arith, h.running, h.few, t.1) in
    elim (Bool-cases (length (remove_at left i) == 0)) [
      | inl z ↦
          let l1 : Log = record l { outstanding = length (remove_at left i); committing = true } in
          let c = commit_rest m l1 in
          rw (h.open_log, down, z)
            (record {
              running = c.1;
              fits = omega (arith, ap (λ bs. length bs) (commit_log m l1), t.0, h.fits);
              few = omega (arith, t.1, h.few);
              open_log = refl;
              disk_log = omega (arith, c.0, h.disk_log);
            })
      | inr z ↦
          rw (h.open_log, down, z)
            (record {
              running = refl;
              fits = omega (arith, t.0, h.fits);
              few = omega (arith, t.1, h.few);
              open_log = refl;
              disk_log = h.disk_log;
            })
    ]

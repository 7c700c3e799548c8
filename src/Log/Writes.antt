-- ===== src/Log/Writes.antt =====
-- The writes that commit makes, in order, and what a list of writes does to a disk.
use pcs_ii.Base.{
  lt→ltb, ℕ, ◌+◌, ◌^◌, ◌≤◌, ◌<◌, ◌≡◌, refl, ap, ◌∙◌, sym, false, ◌⊎◌, List, [], ◌∷◌, ◌++◌, length,
  take, if◌then◌else◌, arith, All, ==-ne, ==-refl,
}
use pcs_ii.Log.{
  Block, Disk, update, Machine, Log, logsize, bwrite, overwrite, encode, decode, write_log,
  write_head, install_trans, commit, has,
}
use pcs_ii.Log.Trace.{
  apply, IsHome, log_writes, home_writes, wrote, wrote-nil, wrote-cons, wrote-append,
  write_log_from-wrote, Logged, Logged-update, install_from-wrote,
}

pub apply-log_writes_out :
    (v d : Disk) (start tail c : ℕ) (bs : List ℕ)
    → length bs + tail ≤ logsize
    → (c ≤ start + tail) ⊎ (start + logsize < c)
    → apply (log_writes v start tail bs) d c ≡ d c
apply-log_writes_out v d start tail c [] l h = refl
apply-log_writes_out v d start tail c (b ∷ bs) l h =
    apply-log_writes_out v (update d (start + tail + 1) (v b)) start (tail + 1) c bs (omega arith)
      (omega arith)
    ∙ rw (==-ne (start + tail + 1) c (omega arith)) refl

pub apply-log_writes-Logged :
    (v d : Disk) (start tail : ℕ) (bs : List ℕ)
    → length bs + tail ≤ logsize
    → Logged (apply (log_writes v start tail bs) d) v start tail bs
apply-log_writes-Logged v d start tail [] l = tt
apply-log_writes-Logged v d start tail (b ∷ bs) l = (
  apply-log_writes_out v (update d (start + tail + 1) (v b)) start (tail + 1) (start + tail + 1) bs
        (omega arith) (omega arith)
      ∙ rw (==-refl (start + tail + 1)) refl,
  apply-log_writes-Logged v (update d (start + tail + 1) (v b)) start (tail + 1) bs (omega arith),
)

pub apply-home_writes :
    (v d : Disk) (c : ℕ) (bs : List ℕ)
    → apply (home_writes v bs) d c ≡ (if has c bs then v c else d c)
apply-home_writes v d c [] = refl
apply-home_writes v d c (b ∷ bs) =
    apply-home_writes v (update d b (v b)) c bs ∙ ground (arith, ap v)

pub Logged-home_writes :
    (d v : Disk) (start : ℕ) (cs bs : List ℕ)
    → length bs ≤ logsize
    → All (IsHome start) cs
    → Logged d v start 0 bs
    → Logged (apply (home_writes v cs) d) v start 0 bs
Logged-home_writes d v start [] bs l h g = g
Logged-home_writes d v start (c ∷ cs) bs l h g =
    Logged-home_writes (update d c (v c)) v start cs bs l h.1
      (Logged-update d v start 0 c (v c) bs (omega arith) (omega arith) g)

pub has_not_home : (start : ℕ) (bs : List ℕ) → All (IsHome start) bs → has start bs ≡ false
has_not_home start [] h = refl
has_not_home start (b ∷ bs) h = rw (==-ne b start (omega arith)) (has_not_home start bs h.1)

take-overwrite :
    (bs : List ℕ) (ws : Block) → length bs ≤ length ws → take (length bs) (overwrite bs ws) ≡ bs
take-overwrite [] ws h = refl
take-overwrite (b ∷ bs) [] h = absurd (omega arith)
take-overwrite (b ∷ bs) (w ∷ ws) h = ap (λ xs. b ∷ xs) (take-overwrite bs ws (omega arith))

-- The header that write_head writes is read back by read_head, if the block has the words for it.
pub decode-encode :
    (bs : List ℕ) (ws : Block)
    → length bs < length ws
    → length bs < 2 ^ 31
    → decode (encode bs ws) ≡ bs
unfolding decode encode
decode-encode bs [] h s = absurd (omega arith)
decode-encode bs (w ∷ ws) h s =
    rw (lt→ltb (length bs) (2 ^ 31) s) (take-overwrite bs ws (omega arith))

pub decode-encode_nil : (ws : Block) → decode (encode [] ws) ≡ []
unfolding decode encode
decode-encode_nil [] = refl
decode-encode_nil (w ∷ ws) = refl

-- All the writes of a commit, in order.
abbrev pub commit_writes : Disk → ℕ → List ℕ → List (ℕ × Block)
commit_writes v start bs =
    let head = encode bs (v start) in
    log_writes v start 0 bs
    ++ ((start, head) ∷ (home_writes v bs ++ ((start, encode [] head) ∷ [])))

All-same : (m : Machine) (cs : List ℕ) → All (λ c. m.bufs c ≡ m.bufs c) cs
All-same m [] = tt
All-same m (c ∷ cs) = (refl, All-same m cs)

bwrite-wrote : (m : Machine) (b : ℕ) (w : Block) → bwrite m b w ≡ wrote m ((b, w) ∷ [])
bwrite-wrote m b w = sym (wrote-nil (bwrite m b w)) ∙ wrote-cons m b w []

module _ (m : Machine) (l : Log) (n : length l.blocks ≤ logsize)
    (h : All (IsHome l.start) l.blocks) where
  log_part : List (ℕ × Block)
  log_part = log_writes m.bufs l.start 0 l.blocks

  head : Block
  head = encode l.blocks (m.bufs l.start)

  after_log : write_log m l ≡ wrote m log_part
  unfolding write_log log_part
  after_log = write_log_from-wrote m m.bufs l.start 0 l.blocks (omega arith) h (All-same m l.blocks)

  after_head : write_head (wrote m log_part) l ≡ wrote (wrote m log_part) ((l.start, head) ∷ [])
  unfolding write_head log_part head
  after_head =
      ap (λ w. bwrite (wrote m log_part) l.start (encode l.blocks w))
        (apply-log_writes_out m.bufs m.bufs l.start 0 l.start l.blocks (omega arith) (omega arith))
      ∙ bwrite-wrote (wrote m log_part) l.start head

  after_install :
      install_trans (wrote (wrote m log_part) ((l.start, head) ∷ [])) l
      ≡ wrote (wrote (wrote m log_part) ((l.start, head) ∷ [])) (home_writes m.bufs l.blocks)
  unfolding install_trans log_part head
  after_install = install_from-wrote _ m.bufs l.start 0 l.blocks (omega arith) h (
      Logged-update (apply log_part m.bufs) m.bufs l.start 0 l.start head l.blocks (omega arith)
        (omega arith) (apply-log_writes-Logged m.bufs m.bufs l.start 0 l.blocks (omega arith)))

  installed : Machine
  installed = wrote (wrote (wrote m log_part) ((l.start, head) ∷ [])) (home_writes m.bufs l.blocks)

  start_word : installed.bufs l.start ≡ head
  unfolding installed
  start_word =
      apply-home_writes m.bufs (apply ((l.start, head) ∷ []) (apply log_part m.bufs)) l.start
        l.blocks
      ∙ rw (has_not_home l.start l.blocks h, ==-refl l.start) refl

  after_clear :
      write_head installed (record l { blocks = [] })
      ≡ wrote installed ((l.start, encode [] head) ∷ [])
  unfolding write_head
  after_clear =
      ap (λ w. bwrite installed l.start (encode [] w)) start_word
      ∙ bwrite-wrote installed l.start (encode [] head)

  joined :
      wrote installed ((l.start, encode [] head) ∷ [])
      ≡ wrote m (commit_writes m.bufs l.start l.blocks)
  unfolding installed log_part head
  joined =
      wrote-append (wrote (wrote m log_part) ((l.start, head) ∷ [])) (home_writes m.bufs l.blocks)
        ((l.start, encode [] head) ∷ [])
      ∙ wrote-append (wrote m log_part) ((l.start, head) ∷ [])
          (home_writes m.bufs l.blocks ++ ((l.start, encode [] head) ∷ []))
      ∙ wrote-append m log_part
          ((l.start, head) ∷ (home_writes m.bufs l.blocks ++ ((l.start, encode [] head) ∷ [])))

  -- commit makes exactly these writes: the log blocks, the header, the home locations, and the
  -- cleared header.
  pub commit-wrote :
      0 < length l.blocks → (commit m l).0 ≡ wrote m (commit_writes m.bufs l.start l.blocks)
  unfolding commit installed
  commit-wrote p = rw (lt→ltb 0 (length l.blocks) p) (
      ap (λ x. write_head (install_trans (write_head x l) l) (record l { blocks = [] })) after_log
      ∙ ap (λ x. write_head (install_trans x l) (record l { blocks = [] })) after_head
      ∙ ap (λ x. write_head x (record l { blocks = [] })) after_install
      ∙ after_clear
      ∙ joined)

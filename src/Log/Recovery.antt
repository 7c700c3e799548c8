-- ===== src/Log/Recovery.antt =====
-- A crash at any moment of a commit, and the recovery after it: all of the transaction or nothing.
use mathlib.Core.List.{append-nil}
use pcs_ii.Base.{
  leb→le, ltb→lt, ℕ, zero, suc, ◌+◌, ◌-◌, ◌≤◌, ◌<◌, ◌≡◌, refl, ap, ◌∙◌, sym, false, Bool-cases, inl,
  inr, ◌⊎◌, List, [], ◌∷◌, ◌++◌, length, take, ltb, leb, if◌then◌else◌, arith, All, ==-ne, ==-refl,
  take-append, take-map, take_all, length-map,
}
use pcs_ii.Log.{Block, Disk, update, Machine, Log, logsize, encode, decode, commit, has}
use pcs_ii.Log.Trace.{apply, apply-append, IsHome, log_writes, home_writes, Logged, Logged-update}
use pcs_ii.Log.Writes.{
  apply-log_writes_out, apply-log_writes-Logged, apply-home_writes, Logged-home_writes,
  has_not_home, decode-encode, decode-encode_nil, commit_writes, commit-wrote,
}
use pcs_ii.Log.Booted.{recovered, recovered-Logged, recovered_clear}

length-log_writes :
    (v : Disk) (start tail : ℕ) (bs : List ℕ) → length (log_writes v start tail bs) ≡ length bs
length-log_writes v start tail [] = refl
length-log_writes v start tail (b ∷ bs) = ap suc (length-log_writes v start (tail + 1) bs)

take-nil : (n : ℕ) → take {A = ℕ × Block} n [] ≡ []
take-nil zero = refl
take-nil (suc n) = refl

-- A prefix of the writes to the log changes neither the header nor a home block.
take-log_writes_out :
    (v d : Disk) (start tail k c : ℕ) (bs : List ℕ)
    → length bs + tail ≤ logsize
    → (c ≤ start + tail) ⊎ (start + logsize < c)
    → apply (take k (log_writes v start tail bs)) d c ≡ d c
take-log_writes_out v d start tail zero c bs l h = refl
take-log_writes_out v d start tail (suc k) c [] l h = refl
take-log_writes_out v d start tail (suc k) c (b ∷ bs) l h =
    take-log_writes_out v (update d (start + tail + 1) (v b)) start (tail + 1) k c bs (omega arith)
      (omega arith)
    ∙ rw (==-ne (start + tail + 1) c (omega arith)) refl

has-take : (c k : ℕ) (bs : List ℕ) → has c bs ≡ false → has c (take k bs) ≡ false
has-take c zero bs h = refl
has-take c (suc k) [] h = refl
has-take c (suc k) (b ∷ bs) h = ground (arith, has-take c k bs)

All-take : (start k : ℕ) (bs : List ℕ) → All (IsHome start) bs → All (IsHome start) (take k bs)
All-take start zero bs h = tt
All-take start (suc k) [] h = tt
All-take start (suc k) (b ∷ bs) h = (h.0, All-take start k bs h.1)

module _ (l : Log) (d v : Disk) (bs : List ℕ) (n : length bs ≤ logsize)
    (h : All (IsHome l.start) bs) (w : length bs < length (v l.start)) where
  -- The disk once the header of the transaction is on it.
  committed : Disk
  committed = update (apply (log_writes v l.start 0 bs) d) l.start (encode bs (v l.start))

  committed-Logged : Logged committed v l.start 0 bs
  unfolding committed
  committed-Logged =
      Logged-update (apply (log_writes v l.start 0 bs) d) v l.start 0 l.start
        (encode bs (v l.start)) bs (omega arith) (omega arith)
        (apply-log_writes-Logged v d l.start 0 bs (omega arith))

  committed-home : (c : ℕ) → IsHome l.start c → committed c ≡ d c
  unfolding committed
  committed-home c k =
      rw (==-ne l.start c (omega arith))
        (apply-log_writes_out v d l.start 0 c bs (omega arith) (omega arith))

  committed-head : committed l.start ≡ encode bs (v l.start)
  unfolding committed
  committed-head = rw (==-refl l.start) refl

  -- A crash while the home locations are written.
  crash_installing :
      (j c : ℕ)
      → IsHome l.start c
      → recovered l (apply (home_writes v (take j bs)) committed) c
        ≡ (if has c bs then v c else d c)
  crash_installing j c k =
      let same_head : apply (home_writes v (take j bs)) committed l.start ≡ encode bs (v l.start) =
        apply-home_writes v committed l.start (take j bs)
        ∙ rw (has-take l.start j bs (has_not_home l.start bs h)) committed-head in
      recovered-Logged l (apply (home_writes v (take j bs)) committed) v bs c
        (ap decode same_head ∙ decode-encode bs (v l.start) w (omega (arith, n))) n h
        (Logged-home_writes committed v l.start (take j bs) bs n (All-take l.start j bs h)
          committed-Logged)
        k
      ∙ elim (Bool-cases (has c bs)) [
        | inl e ↦ rw e refl
        | inr e ↦ rw e (
            apply-home_writes v committed c (take j bs)
            ∙ rw (has-take c j bs e) (committed-home c k))
      ]

  -- A crash after the header is cleared.
  crash_cleared :
      (c : ℕ)
      → IsHome l.start c
      → recovered l
          (update (apply (home_writes v bs) committed) l.start (encode [] (encode bs (v l.start))))
          c
        ≡ (if has c bs then v c else d c)
  crash_cleared c k =
      recovered_clear l _ c (rw (==-refl l.start) (decode-encode_nil (encode bs (v l.start)))) k
      ∙ rw (==-ne l.start c (omega arith)) (
          apply-home_writes v committed c bs
          ∙ ap (λ x. if has c bs then v c else x) (committed-home c k))

  -- A crash before the header is written.
  crash_logging :
      (k c : ℕ)
      → decode (d l.start) ≡ []
      → IsHome l.start c
      → recovered l (apply (take k (log_writes v l.start 0 bs)) d) c ≡ d c
  crash_logging k c e q =
      recovered_clear l _ c
        (ap decode (take-log_writes_out v d l.start 0 k l.start bs (omega arith) (omega arith)) ∙ e)
        q
      ∙ take-log_writes_out v d l.start 0 k c bs (omega arith) (omega arith)

  tail_writes : List (ℕ × Block)
  tail_writes = home_writes v bs ++ ((l.start, encode [] (encode bs (v l.start))) ∷ [])

  -- A crash after the header is written, `j` writes later.
  crash_committed :
      (j c : ℕ)
      → IsHome l.start c
      → recovered l (apply (take j tail_writes) committed) c ≡ (if has c bs then v c else d c)
  unfolding tail_writes
  crash_committed j c q =
      let x : ℕ × Block = (l.start, encode [] (encode bs (v l.start))) in
      let split = take-append j (home_writes v bs) (x ∷ []) in
      let count : length (home_writes v bs) ≡ length bs = length-map bs (λ b. (b, v b)) in
      elim (Bool-cases (leb j (length bs))) [
        | inl e ↦
            let z : j - length (home_writes v bs) ≡ 0 =
              omega (arith, count, leb→le j (length bs) e) in
            ap (λ ws. recovered l (apply ws committed) c)
              (split
                ∙ ap (λ i. take j (home_writes v bs) ++ take i (x ∷ [])) z
                ∙ append-nil (take j (home_writes v bs))
                ∙ take-map (λ b. (b, v b)) j bs)
            ∙ crash_installing j c q
        | inr e ↦
            let r : j - length (home_writes v bs) ≡ suc (j - length bs - 1) =
              ground (arith, count) in
            ap (λ ws. recovered l (apply ws committed) c)
              (split
                ∙ ap (λ i. take j (home_writes v bs) ++ take i (x ∷ [])) r
                ∙ ap (λ ws. ws ++ (x ∷ take (j - length bs - 1) []))
                    (take_all j (home_writes v bs) (ground (arith, count)))
                ∙ ap (λ ws. home_writes v bs ++ (x ∷ ws)) (take-nil (j - length bs - 1)))
            ∙ ap (λ f. recovered l f c) (apply-append (home_writes v bs) (x ∷ []) committed)
            ∙ crash_cleared c q
      ]

  crash_writes :
      (k c : ℕ)
      → decode (d l.start) ≡ []
      → IsHome l.start c
      → recovered l (apply (take k (commit_writes v l.start bs)) d) c
        ≡ (if leb k (length bs) then d c else if has c bs then v c else d c)
  unfolding committed tail_writes
  crash_writes k c e q =
      let logs = log_writes v l.start 0 bs in
      let rest : List (ℕ × Block) = (l.start, encode bs (v l.start)) ∷ tail_writes in
      let split = take-append k logs rest in
      let count : length logs ≡ length bs = length-log_writes v l.start 0 bs in
      elim (Bool-cases (leb k (length bs))) [
        | inl b ↦
            let z : k - length logs ≡ 0 = omega (arith, count, leb→le k (length bs) b) in
            rw b (
              ap (λ ws. recovered l (apply ws d) c)
                (split ∙ ap (λ i. take k logs ++ take i rest) z ∙ append-nil (take k logs))
              ∙ crash_logging k c e q)
        | inr b ↦
            let r : k - length logs ≡ suc (k - length bs - 1) = ground (arith, count) in
            rw b (
              ap (λ ws. recovered l (apply ws d) c)
                (split
                  ∙ ap (λ i. take k logs ++ take i rest) r
                  ∙ ap (λ ws. ws ++ take (suc (k - length bs - 1)) rest)
                      (take_all k logs (ground (arith, count))))
              ∙ ap (λ f. recovered l f c)
                  (apply-append logs
                    ((l.start, encode bs (v l.start)) ∷ take (k - length bs - 1) tail_writes) d)
              ∙ crash_committed (k - length bs - 1) c q)
      ]

-- Crash safety. A commit of at most LOGSIZE blocks outside the log area starts with an empty header
-- on the disk, with a header block that has a word for each of them, and makes one write after
-- another. Wherever a crash cuts these writes off, after k of them, recovery leaves every block
-- outside the log area either as it was before the commit, if k is at most the number of logged
-- blocks, or else with the whole transaction applied.
pub commit_crash :
    (m : Machine) (l : Log) (k c : ℕ)
    → m.trace ≡ []
    → decode (m.disk l.start) ≡ []
    → length l.blocks ≤ logsize
    → length l.blocks < length (m.bufs l.start)
    → All (IsHome l.start) l.blocks
    → IsHome l.start c
    → recovered l (apply (take k ((commit m l).0).trace) m.disk) c ≡ (
        if leb k (length l.blocks) then m.disk c else if has c l.blocks then m.bufs c else m.disk c)
commit_crash m l k c t e n w h q = elim (Bool-cases (ltb 0 (length l.blocks))) [
  | inl p ↦
      ap (λ ws. recovered l (apply (take k ws) m.disk) c)
        (ap (λ (x : Machine). x.trace) (commit-wrote m l n h (ltb→lt 0 (length l.blocks) p))
          ∙ ap (λ ws. ws ++ commit_writes m.bufs l.start l.blocks) t)
      ∙ crash_writes l m.disk m.bufs l.blocks n h w k c e q
  | inr p ↦
      ap (λ ws. recovered l (apply (take k ws) m.disk) c) (nothing_logged p ∙ t)
      ∙ ap (λ ws. recovered l (apply ws m.disk) c) (take-nil k)
      ∙ recovered_clear l m.disk c e q
      ∙ sym (same l.blocks p)
]
  where
    nothing_logged : ltb 0 (length l.blocks) ≡ false → ((commit m l).0).trace ≡ m.trace
    nothing_logged p = unfold commit in (rw p refl)

    same :
        (bs : List ℕ)
        → ltb 0 (length bs) ≡ false
        → (if leb k (length bs) then m.disk c else if has c bs then m.bufs c else m.disk c)
          ≡ m.disk c
    same [] p = ground arith
    same (b ∷ bs) p = absurd (ground arith)

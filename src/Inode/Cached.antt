-- ===== src/Inode/Cached.antt =====
-- The cache holds an inode at most once, whatever iget recycles.
use pcs_ii.Base.{
  get_elem?-modify_self, get_elem?-modify_ne, ℕ, zero, suc, ◌+◌, ◌≤◌, ◌≡◌, ◌≢◌, refl, ap, ◌∙◌, true,
  false, ◌&&◌, Bool-cases, inl, inr, ◌⊎◌, List, [], ◌∷◌, Option, none, some, get_elem?, modify,
  ◌==◌, if◌then◌else◌, arith, All,
}
use pcs_ii.Inode.{
  Run, done, panics, waits, Inode, State, is_pos, is_inode, Found, cached, recycle, scan, one_more,
  renewed, iget,
}

-- How many slots hold an inode that is in use.
abbrev pub copies : ℕ → ℕ → List Inode → ℕ
copies dev inum [] = 0
copies dev inum (ip ∷ ips) = (if is_inode dev inum ip then 1 else 0) + copies dev inum ips

pub record IsUnique (cache : List Inode) : Type 0 where
  pub at_most_one : (dev inum : ℕ) → copies dev inum cache ≤ 1

copies-modify :
    (cs : List Inode) (i : ℕ) (ip : Inode) (f : Inode → Inode) (dev inum : ℕ)
    → get_elem? cs i ≡ some ip
    → copies dev inum (modify cs i f) + (if is_inode dev inum ip then 1 else 0)
      ≡ copies dev inum cs + (if is_inode dev inum (f ip) then 1 else 0)
copies-modify [] i ip f dev inum h = absurd (ground arith)
copies-modify (c ∷ cs) zero ip f dev inum h =
    let same : c ≡ ip = ground arith in rw same (omega arith)
copies-modify (c ∷ cs) (suc i) ip f dev inum h = omega (arith, copies-modify cs i ip f dev inum h)

-- What the scan found, `k` slots on.
abbrev pub Finds : List Inode → ℕ → ℕ → ℕ → Option ℕ → Found → Type 0
Finds cs dev inum k empty (cached i) =
    (j : ℕ) × (ip : Inode) × (i ≡ k + j)
    × (get_elem? cs j ≡ some ip)
    × (is_inode dev inum ip ≡ true)
Finds cs dev inum k empty (recycle none) =
    (copies dev inum cs ≡ 0) × (empty ≡ none) × All (λ ip. ip.ref ≢ 0) cs
Finds cs dev inum k empty (recycle (some i)) =
    (copies dev inum cs ≡ 0)
    × ((empty ≡ some i)
        ⊎ ((j : ℕ) × (ip : Inode) × (i ≡ k + j) × (get_elem? cs j ≡ some ip) × (ip.ref ≡ 0)))

Finds-cons :
    (ip : Inode) (cs : List Inode) (dev inum k : ℕ) (empty : Option ℕ) (f : Found)
    → is_inode dev inum ip ≡ false
    → Finds cs dev inum
        (k + 1)
        (elim empty [ none ↦ if ip.ref == 0 then some k else none | some e ↦ some e ])
        f
    → Finds (ip ∷ cs) dev inum k empty f
Finds-cons ip cs dev inum k empty (cached i) n (j, c, a, b, d) = (suc j, c, omega arith, b, d)
Finds-cons ip cs dev inum k none (recycle none) n (a, b, c) =
    (rw n (omega arith), refl, (ground arith, c))
Finds-cons ip cs dev inum k (some e) (recycle none) n (a, b, c) = absurd (ground (arith, b))
Finds-cons ip cs dev inum k none (recycle (some i)) n (a, inl b) =
    (rw n (omega arith), inr (0, ip, ground arith, refl, ground arith))
Finds-cons ip cs dev inum k (some e) (recycle (some i)) n (a, inl b) = (rw n (omega arith), inl b)
Finds-cons ip cs dev inum k empty (recycle (some i)) n (a, inr (j, c, b, d, z)) =
    (rw n (omega arith), inr (suc j, c, omega arith, d, z))

scan-Finds :
    (cs : List Inode) (dev inum k : ℕ) (empty : Option ℕ)
    → Finds cs dev inum k empty (scan cs dev inum k empty)
unfolding scan
scan-Finds [] dev inum k none = (refl, refl, tt)
scan-Finds [] dev inum k (some e) = (refl, inl refl)
scan-Finds (ip ∷ cs) dev inum k empty = elim (Bool-cases (is_inode dev inum ip)) [
  | inl y ↦ rw y (0, ip, omega arith, refl, y)
  | inr n ↦ rw n (Finds-cons ip cs dev inum k empty _ n (scan-Finds cs dev inum (k + 1) _))
]

-- What iget answers.
abbrev pub Gets : ℕ → ℕ → State → Run (ℕ × State) → Type 0
Gets dev inum s waits = ⊥
Gets dev inum s panics = (copies dev inum s.cache ≡ 0) × All (λ ip. ip.ref ≢ 0) s.cache
Gets dev inum s (done (i, s')) =
    IsUnique s'.cache
    × ((old : Inode) × (get_elem? s.cache i ≡ some old)
        × (((is_inode dev inum old ≡ true) × (get_elem? s'.cache i ≡ some (one_more old)))
            ⊎ ((old.ref ≡ 0)
                × (copies dev inum s.cache ≡ 0)
                × (get_elem? s'.cache i ≡ some (renewed dev inum old)))))
    × ((j : ℕ) → i ≢ j → get_elem? s'.cache j ≡ get_elem? s.cache j)

copies-one_more :
    (cs : List Inode) (i : ℕ) (ip : Inode) (d n : ℕ)
    → get_elem? cs i ≡ some ip
    → copies d n (modify cs i one_more) ≤ copies d n cs + (if is_pos ip.ref then 0 else 1)
copies-one_more cs i ip d n h = ground (arith, copies-modify cs i ip one_more d n h)

copies-renewed :
    (cs : List Inode) (i : ℕ) (ip : Inode) (dev inum d n : ℕ)
    → get_elem? cs i ≡ some ip
    → ip.ref ≡ 0
    → copies dev inum cs ≡ 0
    → copies d n cs ≤ 1
    → copies d n (modify cs i (renewed dev inum)) ≤ 1
copies-renewed cs i ip dev inum d n h z none_yet one = elim (Bool-cases (d == dev && n == inum)) [
  | inl e ↦
      let a : d ≡ dev = ground arith in
      let b : n ≡ inum = ground arith in
      let c : copies d n cs ≡ 0 = rw (a, b) none_yet in
      ground (arith, copies-modify cs i ip (renewed dev inum) d n h)
  | inr e ↦ ground (arith, copies-modify cs i ip (renewed dev inum) d n h)
]

-- From a cache that holds every inode at most once, iget leaves such a cache. It gives the slot that
-- holds the inode, with one more reference, or else an empty slot that is set up for it; no other
-- slot changes. It never waits, and panics only if no slot holds the inode and none is empty.
pub iget-Gets : (dev inum : ℕ) (s : State) → IsUnique s.cache → Gets dev inum s (iget dev inum s)
unfolding iget
iget-Gets dev inum s u = go (scan s.cache dev inum 0 none) refl (scan-Finds s.cache dev inum 0 none)
  where
    go :
        (f : Found)
        → scan s.cache dev inum 0 none ≡ f
        → Finds s.cache dev inum 0 none f
        → Gets dev inum s (iget dev inum s)
    go (cached i) e (j, ip, a, b, c) =
        let same : i ≡ j = omega arith in
        let h : get_elem? s.cache i ≡ some ip = ap (get_elem? s.cache) same ∙ b in
        rw (e, iget)
          (
            record {
              at_most_one =
                  λ d n. ground (arith, copies-one_more s.cache i ip d n h, u.at_most_one d n, c);
            },
            (ip, h, inl (c, get_elem?-modify_self s.cache i one_more h)),
            λ k n. get_elem?-modify_ne s.cache i k one_more n,
          )
    go (recycle none) e (a, b, c) = rw (e, iget) (a, c)
    go (recycle (some i)) e (a, inl b) = absurd (ground (arith, b))
    go (recycle (some i)) e (a, inr (j, ip, c, b, z)) =
        let same : i ≡ j = omega arith in
        let h : get_elem? s.cache i ≡ some ip = ap (get_elem? s.cache) same ∙ b in
        rw (e, iget)
          (
            record {
              at_most_one =
                  λ d n. copies-renewed s.cache i ip dev inum d n h z a (u.at_most_one d n);
            },
            (ip, h, inr (z, a, get_elem?-modify_self s.cache i (renewed dev inum) h)),
            λ k n. get_elem?-modify_ne s.cache i k (renewed dev inum) n,
          )

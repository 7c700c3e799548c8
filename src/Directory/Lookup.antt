-- ===== src/Directory/Lookup.antt =====
-- dirlookup against the entries of the directory.
use pcs_ii.Base.{
  ℕ, zero, suc, ◌+◌, ◌-◌, ◌*◌, ◌/◌, ◌%◌, ◌^◌, min, ◌≤◌, ◌<◌, ◌≡◌, ◌≢◌, refl, ap, subst, ◌∙◌, true,
  false, not, ◌||◌, Bool-cases, inl, inr, ◌⊎◌, List, Option, none, some, length, get_elem?, ltb,
  ◌==◌, if◌then◌else◌, arith,
}
use pcs_ii.Fs.{bsize}
use pcs_ii.Inode.{Run, done, Inode, State, pure, fail, ◌>>=◌, >>=-done, fetch, iget}
use pcs_ii.Content.{Devsw, slice, readi, t_dir}
use pcs_ii.Content.Reading.{HasBlock, byte_of, readi-eq}
use pcs_ii.Directory.{
  dirent_size, dirent_inum, dirent_name, namecmp, is_zero, read_dirent, lookup_from, dirlookup,
}

-- A directory in the cache, whose blocks are all there and which holds whole entries.
pub record IsDirectory (s : State) (i : ℕ) (ip : Inode) : Type 0 where
  pub in_cache : get_elem? s.cache i ≡ some ip
  pub is_dir : ip.kind ≡ t_dir
  pub has : (a : ℕ) → a < ip.size → HasBlock s ip (a / bsize)
  pub whole : (ip.size % dirent_size ≡ 0) × (ip.size < 2 ^ 32)

-- The bytes of entry `k`.
abbrev pub entry : State → Inode → ℕ → List ℕ
entry s ip k = slice (byte_of s ip) (k * dirent_size) dirent_size

-- Entry `k` is in use and has the name.
abbrev pub IsNamed : State → Inode → List ℕ → ℕ → Type 0
IsNamed s ip name k =
    (dirent_inum (entry s ip k) ≢ 0) × (is_zero (namecmp name (dirent_name (entry s ip k))) ≡ true)

-- The result is that of the first entry with the name, or none.
abbrev pub Looks : State → Inode → List ℕ → Run (Option (ℕ × ℕ) × State) → Type 0
Looks s ip name r =
    (((k : ℕ) → k < ip.size / dirent_size → ¬ IsNamed s ip name k) × (r ≡ done (none, s)))
    ⊎ ((k : ℕ) × (k < ip.size / dirent_size)
        × IsNamed s ip name k
        × ((j : ℕ) → j < k → ¬ IsNamed s ip name j)
        × (r
            ≡ (iget ip.dev (dirent_inum (entry s ip k)) >>= λ i. pure (some (i, k * dirent_size)))
                s))

length-slice : (f : ℕ → ℕ) (a n : ℕ) → length (slice f a n) ≡ n
unfolding slice
length-slice f a zero = refl
length-slice f a (suc n) = ap suc (length-slice f (a + 1) n)

checked :
    (s : State) (de : List ℕ)
    → length de ≡ dirent_size
    → (if length de == dirent_size then pure de else fail) s ≡ done (de, s)
checked s de h = let e : (length de == dirent_size) ≡ true = ground (arith, h) in rw e refl

none_left :
    (dv : Devsw) (dp dev size : ℕ) (name : List ℕ) (off : ℕ) (s : State)
    → lookup_from zero dv dp dev size name off s ≡ done (none, s)
unfolding lookup_from
none_left dv dp dev size name off s = refl

at_end :
    (f : ℕ) (dv : Devsw) (dp dev size : ℕ) (name : List ℕ) (off : ℕ) (s : State)
    → ltb off size ≡ false
    → lookup_from (suc f) dv dp dev size name off s ≡ done (none, s)
unfolding lookup_from
at_end f dv dp dev size name off s h = rw h refl

module _ (dv : Devsw) (s : State) (i : ℕ) (ip : Inode) (d : IsDirectory s i ip) where
  read_dirent-entry :
      (k : ℕ)
      → k < ip.size / dirent_size
      → read_dirent dv i (k * dirent_size) s ≡ done (entry s ip k, s)
  unfolding read_dirent
  read_dirent-entry k h =
      let off = k * dirent_size in
      let fits : (ltb ip.size off || ltb ((off + dirent_size) % 2 ^ 32) off) ≡ false =
        ground (arith, d.whole.0, d.whole.1) in
      let all : min dirent_size (ip.size - off) ≡ dirent_size = omega (arith, d.whole.0) in
      let bytes = readi-eq dv s i ip off dirent_size d.in_cache (ground (arith, d.is_dir)) d.has in
      let read =
        bytes ∙ ap (λ o. done (o, s)) (rw fits (ap some (ap (slice (byte_of s ip) off) all))) in
      >>=-done (readi dv i off dirent_size) _ s s (some (entry s ip k)) read
      ∙ checked s (entry s ip k) (length-slice (byte_of s ip) off dirent_size)

  -- One round of the loop.
  lookup_from-round :
      (name : List ℕ) (f k : ℕ)
      → k < ip.size / dirent_size
      → lookup_from (suc f) dv i ip.dev ip.size name (k * dirent_size) s
        ≡ (if dirent_inum (entry s ip k) == 0
                || not (is_zero (namecmp name (dirent_name (entry s ip k))))
              then lookup_from f dv i ip.dev ip.size name (k * dirent_size + dirent_size)
              else (iget ip.dev (dirent_inum (entry s ip k)) >>= λ j.
                  pure (some (j, k * dirent_size))))
            s
  unfolding lookup_from
  lookup_from-round name f k h =
      let x : ltb (k * dirent_size) ip.size ≡ true = ground (arith, d.whole.0) in
      rw x
        (>>=-done (read_dirent dv i (k * dirent_size)) _ s s (entry s ip k) (read_dirent-entry k h))

  earlier :
      (name : List ℕ) (k : ℕ)
      → ((j : ℕ) → j < k → ¬ IsNamed s ip name j)
      → ¬ IsNamed s ip name k
      → (j : ℕ) → j < k + 1
      → ¬ IsNamed s ip name j
  earlier name k before miss j h = elim (Bool-cases (ltb j k)) [
    | inl x ↦ before j (ground (arith, x))
    | inr x ↦
        let same : k ≡ j = ground (arith, x) in subst (λ (n : ℕ). ¬ IsNamed s ip name n) same miss
  ]

  lookup_from-Looks :
      (name : List ℕ) (f k : ℕ)
      → ip.size / dirent_size ≤ k + f
      → ((j : ℕ) → j < k → ¬ IsNamed s ip name j)
      → Looks s ip name (lookup_from f dv i ip.dev ip.size name (k * dirent_size) s)
  lookup_from-Looks name zero k h before =
      inl (λ j l. before j (omega arith), none_left dv i ip.dev ip.size name (k * dirent_size) s)
  lookup_from-Looks name (suc f) k h before = elim (Bool-cases (ltb (k * dirent_size) ip.size)) [
    | inr x ↦ inl (
      λ j l. before j (ground (arith, x)),
      at_end f dv i ip.dev ip.size name (k * dirent_size) s x,
    )
    | inl x ↦
        let e = entry s ip k in
        let l : k < ip.size / dirent_size = ground (arith, x, d.whole.0) in
        rw (lookup_from-round name f k l)
          (elim (Bool-cases (dirent_inum e == 0 || not (is_zero (namecmp name (dirent_name e))))) [
            | inl y ↦
                let miss : ¬ IsNamed s ip name k = λ n. ground (arith, y, n.0, n.1) in
                rw y (
                  subst (λ (o : ℕ). Looks s ip name (lookup_from f dv i ip.dev ip.size name o s))
                    (omega arith)
                    (lookup_from-Looks name f (k + 1) (omega arith) (earlier name k before miss)))
            | inr y ↦
                rw y (inr (k, l, (λ z. ground (arith, y, z), ground (arith, y)), before, refl))
          ])
  ]

-- In a directory whose inode is in the cache, which has all its blocks and whose size is a
-- whole number of entries and below 2^32, dirlookup finds the first entry in use with the name,
-- gets its inode and gives the entry's offset; if there is no such entry it answers null and
-- changes nothing.
pub dirlookup-Looks :
    (dv : Devsw) (s : State) (i : ℕ) (ip : Inode) (name : List ℕ)
    → IsDirectory s i ip
    → Looks s ip name (dirlookup dv i name s)
unfolding dirlookup
dirlookup-Looks dv s i ip name d =
    let is_dir : (ip.kind == t_dir) ≡ true = ground (arith, d.is_dir) in
    rw (dirlookup, fetch, d.in_cache, ◌>>=◌, is_dir)
      (lookup_from-Looks dv s i ip d name (suc (ip.size / dirent_size)) 0 (omega arith)
        (λ j l. absurd (omega arith)))

-- ===== src/Pipe/Window.antt =====
-- What a pipe holds, oldest byte first, and the invariant of its counters.
use pcs_ii.Base.{
  ℕ, zero, suc, ◌+◌, ◌-◌, ◌%◌, ◌^◌, ◌≤◌, ◌<◌, ◌≡◌, refl, ap, ◌∙◌, List, [], ◌∷◌, ◌++◌, length, set,
  get_or, arith, length-set, get_or-set_self, get_or-set_ne, false, ◌==◌,
}
use pcs_ii.Pipe.{Pipe, pipesize, put, is_full, is_empty, first, advance}

-- The bytes between nread and nwrite.
abbrev pub held : Pipe → ℕ
held p = (p.nwrite + 2 ^ 32 - p.nread) % 2 ^ 32

pub record IsValid (p : Pipe) : Type 0 where
  pub storage : length p.buf ≡ pipesize
  pub nread_word : p.nread < 2 ^ 32
  pub nwrite_word : p.nwrite < 2 ^ 32
  pub fits : held p ≤ pipesize

abbrev pub window : List ℕ → ℕ → ℕ → List ℕ
window buf r zero = []
window buf r (suc n) = get_or buf (r % pipesize) 0 ∷ window buf ((r + 1) % 2 ^ 32) n

abbrev pub contents : Pipe → List ℕ
contents p = window p.buf p.nread (held p)

pub length-window : (buf : List ℕ) (r n : ℕ) → length (window buf r n) ≡ n
length-window buf r zero = refl
length-window buf r (suc n) = ap suc (length-window buf ((r + 1) % 2 ^ 32) n)

-- A byte written at the end of a window that does not fill the pipe.
window-set :
    (buf : List ℕ) (r n i b : ℕ)
    → length buf ≡ pipesize
    → r < 2 ^ 32
    → n < pipesize
    → i ≡ (r + n) % pipesize
    → window (set buf i b) r (suc n) ≡ window buf r n ++ (b ∷ [])
window-set buf r zero i b h l s e =
    ap (λ x. x ∷ [])
      (ap (λ j. get_or (set buf i b) j 0) (omega arith) ∙ get_or-set_self buf i b 0 (omega arith))
window-set buf r (suc n) i b h l s e =
    rw (get_or-set_ne buf {i = i} {j = r % pipesize} b 0 (omega arith)) (
      ap (λ xs. get_or buf (r % pipesize) 0 ∷ xs)
        (window-set buf ((r + 1) % 2 ^ 32) n i b h (omega arith) (omega arith) (omega arith)))

pub held-put : (p : Pipe) → IsValid p → is_full p ≡ false → (b : ℕ) → held (put p b) ≡ suc (held p)
unfolding put is_full
held-put p v f b = ground arith

pub is_full-held : (p : Pipe) → IsValid p → is_full p ≡ (held p == pipesize)
unfolding is_full
is_full-held p v = ground arith

pub is_empty-held : (p : Pipe) → IsValid p → is_empty p ≡ (held p == 0)
unfolding is_empty
is_empty-held p v = ground arith

pub put-IsValid : (p : Pipe) (b : ℕ) → IsValid p → is_full p ≡ false → IsValid (put p b)
unfolding put is_full
put-IsValid p b v f = record {
  storage = length-set p.buf (p.nwrite % pipesize) b ∙ v.storage;
  nread_word = v.nread_word;
  nwrite_word = omega arith;
  fits = ground arith;
}

pub contents-put :
    (p : Pipe) (b : ℕ) → IsValid p → is_full p ≡ false → contents (put p b) ≡ contents p ++ (b ∷ [])
contents-put p b v f = rw (held-put p v f b) (
    unfold put in
    window-set p.buf p.nread (held p) (p.nwrite % pipesize) b v.storage v.nread_word room
      (omega (arith, v.nwrite_word, v.nread_word)))
  where
    room : held p < pipesize
    room = ground (arith, is_full-held p v, v.fits)

pub advance-IsValid : (p : Pipe) → IsValid p → is_empty p ≡ false → IsValid (advance p)
unfolding advance is_empty
advance-IsValid p v e = ground arith

pub contents-advance :
    (p : Pipe) → IsValid p → is_empty p ≡ false → contents p ≡ first p ∷ contents (advance p)
unfolding advance is_empty first
contents-advance p v e = let h : held p ≡ suc (held (advance p)) = ground arith in rw h refl

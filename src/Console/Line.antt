-- ===== src/Console/Line.antt =====
-- The line buffer never overflows, and its marks keep their order.
use pcs_ii.Base.{
  ℕ, zero, suc, ◌+◌, ◌-◌, ◌%◌, ◌^◌, ◌≤◌, ◌<◌, ◌≡◌, refl, ◌∙◌, sym, false, not, ◌&&◌, ◌||◌,
  Bool-cases, inl, inr, ◌⊎◌, length, set, get_or, ltb, ◌==◌, if◌then◌else◌, arith, length-set,
  get_or-set_ne,
}
use pcs_ii.Console.{
  Input, input_buf, char_at, before, kill_line, erase_char, type_char, consoleintr_char,
}

-- How far a mark is ahead of r.
abbrev pub ahead : Input → ℕ → ℕ
ahead s x = (x + 2 ^ 32 - s.r) % 2 ^ 32

-- r, w and e stand in this order, and at most INPUT_BUF characters lie between r and e.
pub record IsValid (s : Input) : Type 0 where
  pub storage : length s.buf ≡ input_buf
  pub words : (s.r < 2 ^ 32) × (s.w < 2 ^ 32) × (s.e < 2 ^ 32)
  pub ordered : ahead s s.w ≤ ahead s s.e
  pub fits : ahead s s.e ≤ input_buf

-- What the editing of a line may change: nothing that a reader may already read.
pub record Edits (s s' : Input) : Type 0 where
  pub valid : IsValid s'
  pub same_r : s'.r ≡ s.r
  pub w_grows : ahead s s.w ≤ ahead s s'.w
  pub kept :
      (j : ℕ)
      → j < ahead s s.w
      → get_or s'.buf ((s.r + j) % 2 ^ 32 % input_buf) 0
        ≡ get_or s.buf ((s.r + j) % 2 ^ 32 % input_buf) 0

erase-Edits : (s : Input) → IsValid s → (s.e == s.w) ≡ false → Edits s (record s { e = before s.e })
erase-Edits s v h = record {
  valid = record {
    storage = v.storage;
    words = ground arith;
    ordered = ground (arith, v.ordered);
    fits = ground (arith, v.fits);
  };
  same_r = refl;
  w_grows = omega arith;
  kept = λ j l. refl;
}

Edits-refl : (s : Input) → IsValid s → Edits s s
Edits-refl s v = record { valid = v; same_r = refl; w_grows = omega arith; kept = λ j l. refl }

Edits-trans : (s t u : Input) → Edits s t → Edits t u → Edits s u
Edits-trans s t u a b = record {
  valid = b.valid;
  same_r = b.same_r ∙ a.same_r;
  w_grows = omega (arith, a.same_r, a.w_grows, b.w_grows);
  kept = λ j l. rw (sym a.same_r) (b.kept j (omega (arith, a.same_r, a.w_grows))) ∙ a.kept j l;
}

kill_line-Edits : (f : ℕ) (s : Input) → IsValid s → Edits s (kill_line f s).0
unfolding kill_line
kill_line-Edits zero s v = Edits-refl s v
kill_line-Edits (suc f) s v = elim (Bool-cases (s.e == s.w || char_at s (before s.e) == 10)) [
  | inl h ↦ rw h (Edits-refl s v)
  | inr h ↦
      let s1 = record s { e = before s.e } in
      let one = erase-Edits s v (ground arith) in
      rw h (Edits-trans s s1 (kill_line f s1).0 one (kill_line-Edits f s1 one.valid))
]

erase_char-Edits : (s : Input) → IsValid s → Edits s (erase_char s).0
unfolding erase_char
erase_char-Edits s v = elim (Bool-cases (s.e == s.w)) [
  | inl h ↦ rw h (Edits-refl s v)
  | inr h ↦ rw h (erase-Edits s v h)
]

-- The character is stored past everything that was read or typed, also where the marks wrap around.
store-Edits :
    (s : Input) (c w' : ℕ)
    → IsValid s
    → ahead s s.e < input_buf
    → (w' ≡ s.w) ⊎ (w' ≡ (s.e + 1) % 2 ^ 32)
    → Edits s (record s { buf = set s.buf (s.e % input_buf) c; e = (s.e + 1) % 2 ^ 32; w = w' })
store-Edits s c w' v h o = record {
  valid = record {
    storage = length-set s.buf (s.e % input_buf) c ∙ v.storage;
    words = (v.words.0, ground (arith, v.words.1, v.words.2), omega arith);
    ordered = omega (arith, v.ordered, v.words.0, v.words.1, v.words.2, o);
    fits = omega (arith, v.fits, v.words.0, v.words.2);
  };
  same_r = refl;
  w_grows = omega (arith, v.ordered, v.words.0, v.words.1, v.words.2, o);
  kept = λ j l. get_or-set_ne s.buf c 0 (omega (arith, v.ordered, v.words.0, v.words.1, v.words.2));
}

type_char-Edits : (s : Input) (c : ℕ) → IsValid s → Edits s (type_char s c).0
unfolding type_char
type_char-Edits s c v =
    elim (Bool-cases (not (c == 0) && ltb ((s.e + 2 ^ 32 - s.r) % 2 ^ 32) input_buf)) [
      | inl h ↦
          let c' = if c == 13 then 10 else c in
          elim (Bool-cases
            (c' == 10 || c' == 4 || (s.e + 1) % 2 ^ 32 == (s.r + input_buf) % 2 ^ 32)) [
              | inl l ↦
                  rw (h, l) (store-Edits s c' ((s.e + 1) % 2 ^ 32) v (ground arith) (inr refl))
              | inr l ↦ rw (h, l) (store-Edits s c' s.w v (ground arith) (inl refl))
            ]
      | inr h ↦ rw h (Edits-refl s v)
    ]

-- Whatever character arrives, from a valid buffer consoleintr leaves a valid buffer, with r as it was,
-- w never moved back, and every character between r and w as it was: editing a line never
-- overruns the buffer, nor takes back what a reader may already read.
pub consoleintr_char-Edits : (s : Input) (c : ℕ) → IsValid s → Edits s (consoleintr_char s c).0
unfolding consoleintr_char
consoleintr_char-Edits s c v = elim (Bool-cases (c == 16)) [
  | inl h ↦ rw h (Edits-refl s v)
  | inr h ↦ elim (Bool-cases (c == 21)) [
    | inl k ↦ rw (h, k) (kill_line-Edits input_buf s v)
    | inr k ↦ elim (Bool-cases (c == 8 || c == 127)) [
      | inl b ↦ rw (h, k, b) (erase_char-Edits s v)
      | inr b ↦ rw (h, k, b) (type_char-Edits s c v)
    ]
  ]
]

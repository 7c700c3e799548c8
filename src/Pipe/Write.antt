-- ===== src/Pipe/Write.antt =====
-- pipewrite: which bytes it takes, how it ends, and whom it wakes.
use pcs_ii.Base.{
  ℕ, zero, suc, ◌+◌, ◌-◌, ◌≡◌, refl, ap, ◌∙◌, sym, List, [], ◌∷◌, ◌++◌, length, take, drop, arith,
  true, false, Bool, Bool-cases, inl, inr, leb, if◌then◌else◌, not, ◌||◌,
}
use mathlib.Core.List.{append-nil, append_assoc}
use pcs_ii.Pipe.{
  Pipe, pipesize, Channel, readers, Wrote, wrote, write_failed, write_sleeps, put, is_full,
  pipewrite_from, pipewrite,
}
use pcs_ii.Pipe.Window.{held, IsValid, contents, held-put, is_full-held, put-IsValid, contents-put}

abbrev pub room : Pipe → ℕ
room p = pipesize - held p

-- How a call for the bytes `bs` ends, and the wakeups that it makes, where there is room for
-- `room` bytes and a full pipe stops or suspends the call.
abbrev pub write_end : Bool → ℕ → List ℕ → ℕ → Wrote × List Channel
write_end stop room bs i =
    if leb (length bs) room
    then (wrote (i + length bs), readers ∷ [])
    else if stop
    then (write_failed, [])
    else (write_sleeps (drop room bs) (i + room), readers ∷ [])

write_end_step :
    (stop : Bool) (n b : ℕ) (bs : List ℕ) (i : ℕ)
    → write_end stop n bs (i + 1) ≡ write_end stop (suc n) (b ∷ bs) i
write_end_step stop n b bs i = ground arith

write_end_full :
    (stop : Bool) (b : ℕ) (bs : List ℕ) (i : ℕ)
    → (if stop then (write_failed, []) else (write_sleeps (b ∷ bs) i, readers ∷ []))
      ≡ write_end stop 0 (b ∷ bs) i
write_end_full stop b bs i = ground arith

pub record Writes (killed : Bool) (p : Pipe) (bs : List ℕ) (i : ℕ) (r : Wrote × Pipe × List Channel)
    : Type 0 where
  pub valid : IsValid r.1
  pub bytes : contents r.1 ≡ contents p ++ take (room p) bs
  pub ends : (r.0, r.2) ≡ write_end (not p.readopen || killed) (room p) bs i
  pub keeps_ends :
      (r.1.readopen ≡ p.readopen) × (r.1.writeopen ≡ p.writeopen) × (r.1.nread ≡ p.nread)

take-nil : (n : ℕ) → take {A = ℕ} n [] ≡ []
take-nil zero = refl
take-nil (suc n) = refl

pipewrite_from-full :
    (killed : Bool) (p : Pipe) (b : ℕ) (bs : List ℕ) (i : ℕ)
    → IsValid p
    → is_full p ≡ true
    → Writes killed p (b ∷ bs) i (pipewrite_from killed p (b ∷ bs) i)
unfolding pipewrite_from
pipewrite_from-full killed p b bs i v f =
    let full : held p ≡ pipesize = ground (arith, is_full-held p v) in
    let none_left : room p ≡ 0 = omega arith in
    elim (Bool-cases (not p.readopen || killed)) [
      | inl e ↦
          rw (f, e)
            (record {
              valid = v;
              bytes = rw none_left (sym (append-nil (contents p)));
              ends = rw (e, none_left) (write_end_full true b bs i);
              keeps_ends = (refl, refl, refl);
            })
      | inr e ↦
          rw (f, e)
            (record {
              valid = v;
              bytes = rw none_left (sym (append-nil (contents p)));
              ends = rw (e, none_left) (write_end_full false b bs i);
              keeps_ends = (refl, refl, refl);
            })
    ]

pub pipewrite_from-Writes :
    (killed : Bool) (p : Pipe) (bs : List ℕ) (i : ℕ)
    → IsValid p
    → Writes killed p bs i (pipewrite_from killed p bs i)
unfolding pipewrite_from put
pipewrite_from-Writes killed p [] i v = record {
  valid = v;
  bytes = rw (take-nil, append-nil) refl;
  ends = ground arith;
  keeps_ends = (refl, refl, refl);
}
pipewrite_from-Writes killed p (b ∷ bs) i v = elim (Bool-cases (is_full p)) [
  | inl f ↦ pipewrite_from-full killed p b bs i v f
  | inr f ↦
      let ih = pipewrite_from-Writes killed (put p b) bs (i + 1) (put-IsValid p b v f) in
      let one : room p ≡ suc (room (put p b)) =
        ground (arith, held-put p v f b, (put-IsValid p b v f).fits) in
      rw f (record {
        valid = ih.valid;
        bytes = rw one (
            ih.bytes
            ∙ ap (λ xs. xs ++ take (room (put p b)) bs) (contents-put p b v f)
            ∙ append_assoc (contents p) (b ∷ []) (take (room (put p b)) bs));
        ends = rw one (ih.ends ∙ write_end_step (not p.readopen || killed) (room (put p b)) b bs i);
        keeps_ends = unfold put in ih.keeps_ends;
      })
]

-- From a valid pipe, pipewrite appends to the pipe as many of the bytes as fit, in order. It returns
-- their number if all fit; otherwise it fails if the reading end is closed or the process was
-- killed, and else sleeps with the rest of the bytes to write. Readers are woken unless it fails.
pub pipewrite-Writes :
    (killed : Bool) (p : Pipe) (bs : List ℕ)
    → IsValid p
    → Writes killed p bs 0 (pipewrite killed p bs)
unfolding pipewrite
pipewrite-Writes killed p bs v = pipewrite_from-Writes killed p bs 0 v

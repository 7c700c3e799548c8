-- ===== src/Memory/Fill.antt =====
-- memset of string.c: both loops fill the same bytes.
use pcs_ii.Base.{
  ℕ, zero, suc, ◌+◌, ◌*◌, ◌/◌, ◌%◌, ◌^◌, ◌<◌, ◌≡◌, refl, ◌&&◌, true, arith, ltb, leb, ◌==◌, ==_iff,
  if◌then◌else◌, sweep, sweep_lem,
}
use pcs_ii.Memory.{Memory, store, store_word, stosb, stosl, repeat_byte, memset}

-- `n` bytes from `dst` on hold `v`, and the others what they held.
abbrev pub filled : Memory → ℕ → ℕ → ℕ → Memory
filled m dst v n a = if leb dst a && ltb a (dst + n) then v else m a

stosb-filled : (m : Memory) (dst c n a : ℕ) → stosb m dst c n a ≡ filled m dst (c % 256) n a
unfolding stosb
stosb-filled m dst c zero a = ground arith
stosb-filled m dst c (suc n) a =
    ground (arith, stosb-filled (store m dst (c % 256)) (dst + 1) c n a)

repeat_table : sweep (λ c. repeat_byte c == c * 0x1010101) 256 ≡ true
unfolding sweep repeat_byte
repeat_table = refl

-- Every byte of the replicated word is the byte.
repeat_byte-eq : (c : ℕ) → c < 256 → repeat_byte c ≡ c * 0x1010101
repeat_byte-eq c h =
    (==_iff _ _).0 (sweep_lem (λ c. repeat_byte c == c * 0x1010101) 256 c h repeat_table)

stosl-filled :
    (m : Memory) (dst w c n a : ℕ)
    → c < 256
    → w ≡ c * 0x1010101
    → stosl m dst w n a ≡ filled m dst c (n * 4) a
unfolding stosl
stosl-filled m dst w c zero a h e = ground arith
stosl-filled m dst w c (suc n) a h e =
    ground (arith, stosl-filled (store_word m dst w) (dst + 4) w c n a h e, b0, b1, b2, b3)
  where
    b0 : w % 256 ≡ c
    b0 = omega arith

    b1 : w / 2 ^ 8 % 256 ≡ c
    b1 = omega arith

    b2 : w / 2 ^ 16 % 256 ≡ c
    b2 = omega arith

    b3 : w / 2 ^ 24 % 256 ≡ c
    b3 = omega arith

-- memset fills exactly the n bytes from dst on with the low byte of c, whichever of its two loops
-- runs, and leaves every other byte as it was.
pub memset-filled : (m : Memory) (dst c n a : ℕ) → memset m dst c n a ≡ filled m dst (c % 256) n a
unfolding memset
memset-filled m dst c n a = ground (
  arith,
  stosb-filled m dst c n a,
  stosl-filled m dst (repeat_byte (c % 256)) (c % 256) (n / 4) a (omega arith)
      (repeat_byte-eq (c % 256) (omega arith)),
)

-- ===== src/Memory/Move.antt =====
-- memmove of string.c, also between areas that overlap.
use pcs_ii.Base.{ℕ, zero, suc, ◌+◌, ◌-◌, ◌≤◌, ◌≡◌, ◌∙◌, ◌⊎◌, ◌&&◌, arith, ltb, leb, if◌then◌else◌}
use pcs_ii.Memory.{Memory, store, copy_up, copy_down, memmove}

-- `n` bytes from `dst` on hold what `src` held.
abbrev pub moved : Memory → ℕ → ℕ → ℕ → Memory
moved m dst src n a = if leb dst a && ltb a (dst + n) then m (src + (a - dst)) else m a

copy_up-moved :
    (m : Memory) (d s n a : ℕ) → (d ≤ s) ⊎ (s + n ≤ d) → copy_up m d s n a ≡ moved m d s n a
unfolding copy_up
copy_up-moved m d s zero a h = ground arith
copy_up-moved m d s (suc n) a h =
    ground (arith, copy_up-moved (store m d (m s)) (d + 1) (s + 1) n a (omega arith))

-- `n` bytes below `d` hold what stood below `s`.
abbrev moved_below : Memory → ℕ → ℕ → ℕ → Memory
moved_below m d s n a = if leb (d - n) a && ltb a d then m (s - (d - a)) else m a

moved_below_step :
    (m : Memory) (d s n a : ℕ)
    → suc n ≤ s
    → s ≤ d
    → moved_below (store m (d - 1) (m (s - 1))) (d - 1) (s - 1) n a ≡ moved_below m d s (suc n) a
moved_below_step m d s n a h k = ground arith

copy_down-moved :
    (m : Memory) (d s n a : ℕ) → n ≤ s → s ≤ d → copy_down m d s n a ≡ moved_below m d s n a
unfolding copy_down
copy_down-moved m d s zero a h k = ground arith
copy_down-moved m d s (suc n) a h k =
    copy_down-moved (store m (d - 1) (m (s - 1))) (d - 1) (s - 1) n a (omega arith) (omega arith)
    ∙ moved_below_step m d s n a h k

-- memmove leaves in the n bytes from dst on what the n bytes from src on held before the call,
-- also where the two areas overlap, and every other byte as it was.
pub memmove-moved : (m : Memory) (dst src n a : ℕ) → memmove m dst src n a ≡ moved m dst src n a
unfolding memmove
memmove-moved m dst src n a =
    ground (arith, copy_up-moved m dst src n a, copy_down-moved m (dst + n) (src + n) n a)

-- ===== src/Umalloc.antt =====
-- umalloc.c: the allocator of user programs. Memory is counted in headers of 8 bytes: a pointer is
-- the number of its header, and null is 0. What the calls of sbrk return, one after the other, is
-- given, with `none` for -1 and where the list ends.
mod Tests
use pcs_ii.Base.{
  ℕ, zero, suc, ◌+◌, ◌-◌, ◌*◌, ◌/◌, ◌%◌, ◌^◌, Bool, true, false, not, ◌&&◌, ◌||◌, List, [], ◌∷◌,
  Option, none, some, ltb, leb, ◌==◌, if◌then◌else◌,
}

pub record Header : Type 0 where
  pub ptr : ℕ
  pub size : ℕ

-- `base` is the address of the static header.
pub record Heap : Type 0 where
  pub at : ℕ → Header
  pub base : ℕ
  pub freep : ℕ
  pub grants : List (Option ℕ)

-- A pointer moved by a number of headers.
abbrev pub moved_by : ℕ → ℕ → ℕ
moved_by p n = (p + n) % 2 ^ 29

abbrev pub put : Heap → ℕ → Header → Heap
put h p hd = record h { at = λ q. if q == p then hd else h.at q }

abbrev pub set_ptr : Heap → ℕ → ℕ → Heap
set_ptr h p q = put h p (record (h.at p) { ptr = q })

abbrev pub set_size : Heap → ℕ → ℕ → Heap
set_size h p n = put h p (record (h.at p) { size = n })

-- Is `bp` between `p` and its successor, in the order of addresses or at the end of it?
abbrev pub fits_after : Heap → ℕ → ℕ → Bool
fits_after h bp p =
    let next = (h.at p).ptr in
    (ltb p bp && ltb bp next) || (leb next p && (ltb p bp || ltb bp next))

-- The loop of free, with fuel for the headers of the list.
unfoldable pub find_place : ℕ → Heap → ℕ → ℕ → Option ℕ
find_place zero h bp p = none
find_place (suc f) h bp p =
    let rest = find_place f h bp (h.at p).ptr in if fits_after h bp p then some p else rest

-- bp joins its right neighbour, or is linked to it.
unfoldable pub join_right : Heap → ℕ → ℕ → Heap
join_right h bp p =
    let next = (h.at p).ptr in
    if moved_by bp (h.at bp).size == next
    then put h bp
        (record { ptr = (h.at next).ptr; size = ((h.at bp).size + (h.at next).size) % 2 ^ 32 })
    else set_ptr h bp next

-- p joins bp, or is linked to it.
unfoldable pub join_left : Heap → ℕ → ℕ → Heap
join_left h bp p =
    if moved_by p (h.at p).size == bp
    then put h p (record { ptr = (h.at bp).ptr; size = ((h.at p).size + (h.at bp).size) % 2 ^ 32 })
    else set_ptr h p bp

-- free of the block whose header is `bp`.
unfoldable pub free : ℕ → Heap → ℕ → Option Heap
unfolding find_place join_right join_left
free fuel h bp = elim (find_place fuel h bp h.freep) [
  | none ↦ none
  | some p ↦ some (record (join_left (join_right h bp p) bp p) { freep = p })
]

abbrev pub next_grant : List (Option ℕ) → Option ℕ × List (Option ℕ)
next_grant [] = (none, [])
next_grant (g ∷ gs) = (g, gs)

-- The new freep, or 0 where sbrk failed.
unfoldable pub morecore : ℕ → Heap → ℕ → Option (ℕ × Heap)
unfolding free
morecore fuel h nu =
    let (g, gs) = next_grant h.grants in
    let h1 = record h { grants = gs } in
    elim g [
      | none ↦ some (0, h1)
      | some hp ↦ elim (free fuel (set_size h1 hp (if ltb nu 4096 then 4096 else nu)) hp) [
        | none ↦ none
        | some h2 ↦ some (h2.freep, h2)
      ]
    ]

-- The block `p`, which is large enough, or its tail; `prevp` stands before it.
unfoldable pub take_block : Heap → ℕ → ℕ → ℕ → ℕ × Heap
take_block h n prevp p =
    let rest = (h.at p).size - n in
    let tail = moved_by p rest in
    let cut = set_size (set_size h p rest) tail n in
    if (h.at p).size == n
    then (moved_by p 1, record (set_ptr h prevp (h.at p).ptr) { freep = prevp })
    else (moved_by tail 1, record cut { freep = prevp })

-- The loop of malloc, with fuel for its rounds.
unfoldable pub malloc_from : ℕ → Heap → ℕ → ℕ → ℕ → Option (ℕ × Heap)
unfolding morecore take_block
malloc_from zero h n prevp p = none
malloc_from (suc f) h n prevp p =
    let onward = malloc_from f h n p (h.at p).ptr in
    if leb n (h.at p).size
    then some (take_block h n prevp p)
    else if p == h.freep
    then (elim (morecore f h n) [
      | none ↦ none
      | some (q, h') ↦ if q == 0 then some (0, h') else malloc_from f h' n q (h'.at q).ptr
    ])
    else onward

-- The first call makes the list of the static header alone.
abbrev pub started : Heap → Heap
started h =
    if h.freep == 0
    then record (put h h.base (record { ptr = h.base; size = 0 })) { freep = h.base }
    else h

unfoldable pub malloc : ℕ → Heap → ℕ → Option (ℕ × Heap)
unfolding malloc_from
malloc fuel h nbytes =
    let n = (nbytes + 8 - 1) % 2 ^ 32 / 8 + 1 in
    let s = started h in malloc_from fuel s n s.freep (s.at s.freep).ptr

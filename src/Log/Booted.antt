-- ===== src/Log/Booted.antt =====
-- The disk after recovery.
use pcs_ii.Base.{ℕ, ◌≤◌, ◌≡◌, refl, ap, ◌∙◌, List, [], length, if◌then◌else◌, arith, All, ==-ne}
use pcs_ii.Log.{
  Disk, Machine, Log, logsize, bwrite, decode, install_from, write_head, has, recover_from_log,
}
use pcs_ii.Log.Trace.{IsHome, Logged, install_from-wrote}
use pcs_ii.Log.Writes.{apply-home_writes}

-- The machine that starts with a disk: no block is cached.
abbrev pub booted : Disk → Machine
booted d = record { disk = d; bufs = d; trace = [] }

-- A block of the disk after recovery.
abbrev pub recovered : Log → Disk → Disk
recovered l d = ((recover_from_log (booted d) l).0).disk

write_head-home :
    (m : Machine) (l : Log) (c : ℕ) → IsHome l.start c → (write_head m l).disk c ≡ m.disk c
unfolding write_head bwrite
write_head-home m l c h = rw (==-ne l.start c (omega arith)) refl

-- Recovery installs what the header on the disk lists.
pub recovered-Logged :
    (l : Log) (d v : Disk) (bs : List ℕ) (c : ℕ)
    → decode (d l.start) ≡ bs
    → length bs ≤ logsize
    → All (IsHome l.start) bs
    → Logged d v l.start 0 bs
    → IsHome l.start c
    → recovered l d c ≡ (if has c bs then v c else d c)
unfolding recover_from_log
recovered-Logged l d v bs c e n h g k =
    write_head-home (install_from (booted d) l.start 0 (decode (d l.start)))
      (record l { blocks = [] }) c k
    ∙ ap (λ (m : Machine). m.disk c)
        (ap (λ xs. install_from (booted d) l.start 0 xs) e
          ∙ install_from-wrote (booted d) v l.start 0 bs (omega arith) h g)
    ∙ apply-home_writes v d c bs

-- A disk whose header lists nothing is what recovery leaves at home.
pub recovered_clear :
    (l : Log) (d : Disk) (c : ℕ)
    → decode (d l.start) ≡ []
    → IsHome l.start c
    → recovered l d c ≡ d c
recovered_clear l d c e k = recovered-Logged l d d [] c e (omega arith) tt tt k

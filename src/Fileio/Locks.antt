-- ===== src/Fileio/Locks.antt =====
-- The lock of an inode around the pieces of fileread and filewrite.
use pcs_ii.Base.{
  ℕ, ◌≡◌, refl, ◌∙◌, true, false, ◌&&◌, some, get_elem?, get_elem?-modify_self, modify, ◌==◌,
  ==-refl,
}
use pcs_ii.Spinlock.{Sleeplock, acquiresleep, releasesleep, holdingsleep}
use pcs_ii.Inode.{
  done, Inode, State, >>=-done, fetch, fetch-eq, change, is_pos, lock_inode, unlock_inode,
  read_locked, ilock, iunlock,
}
use pcs_ii.Content.Writing.{IsFile}

-- An inode that is in use, was read from the disk, and is not locked.
pub record IsIdle (ip : Inode) : Type 0 where
  pub used : is_pos ip.ref ≡ true
  pub valid : ip.valid ≡ true
  pub unlocked : (ip.lock).locked ≡ false

abbrev pub with_lock : Sleeplock → Inode → Inode
with_lock lk ip = record ip { lock = lk }

abbrev pub relocked : State → ℕ → Sleeplock → State
relocked s i lk = record s { cache = modify s.cache i (with_lock lk) }

abbrev pub taken_by : ℕ → Sleeplock
taken_by pid = record { locked = true; pid = pid }

abbrev pub free : Sleeplock
free = record { locked = false; pid = 0 }

pub ilock-taken_by :
    (s : State) (i : ℕ) (ip : Inode)
    → get_elem? s.cache i ≡ some ip
    → IsIdle ip
    → ilock i s ≡ done (tt, relocked s i (taken_by s.pid))
unfolding ilock lock_inode read_locked change acquiresleep
ilock-taken_by s i ip e h =
    >>=-done (fetch i) _ s s ip (fetch-eq s i ip e)
    ∙ rw h.used (
        >>=-done (lock_inode i) (λ _. read_locked i ip) s (relocked s i (taken_by s.pid)) tt
          (>>=-done (fetch i) _ s s ip (fetch-eq s i ip e) ∙ rw h.unlocked refl)
        ∙ rw h.valid refl)

pub iunlock-free :
    (s : State) (i : ℕ) (ip : Inode)
    → get_elem? s.cache i ≡ some ip
    → is_pos ip.ref ≡ true
    → ip.lock ≡ taken_by s.pid
    → iunlock i s ≡ done (tt, relocked s i free)
unfolding iunlock unlock_inode change releasesleep holdingsleep
iunlock-free s i ip e u h =
    let held : ((ip.lock).locked && (ip.lock).pid == s.pid) ≡ true = rw h (==-refl s.pid) in
    >>=-done (fetch i) _ s s ip (fetch-eq s i ip e) ∙ rw (held, u) refl

pub IsFile-relocked :
    (s : State) (i : ℕ) (ip : Inode) (k : ℕ) (lk : Sleeplock)
    → IsFile s i ip k
    → IsFile (relocked s i lk) i (with_lock lk ip) k
IsFile-relocked s i ip k lk v = record {
  in_cache = get_elem?-modify_self s.cache i (with_lock lk) v.in_cache;
  no_device = v.no_device;
  mapped = record {
    has = λ bn l.
        let h = (v.mapped).has bn l in
        record { in_file = h.in_file; has_indirect = h.has_indirect; has_addr = h.has_addr };
    distinct = (v.mapped).distinct;
    apart = (v.mapped).apart;
  };
  whole = v.whole;
}

-- ===== src/Proc.antt =====
-- proc.c: the process table, scheduling, sleep and wakeup, exit, wait, kill, setpriority and
-- growproc. What ptable.lock brackets is one step; Handoff has sleep and wakeup with each acquire and
-- release a step of its own. A pointer to a process is its slot's number.
pub mod Slots
pub mod Table
pub mod Highest
pub mod Scheduler
pub mod Sleep
pub mod Handoff
pub mod Locks
pub mod Waiting
pub mod SleepSteps
pub mod WakerSteps
pub mod Wakeups
pub mod Wait
pub mod Exit
pub mod Signals
pub mod Growth
mod Tests
use pcs_ii.Base.{
  modify, ℕ, zero, suc, ◌+◌, ◌-◌, ◌%◌, ◌^◌, Bool, true, false, not, ◌&&◌, ◌||◌, List, [], ◌∷◌,
  Option, none, some, ltb, leb, ◌==◌, if◌then◌else◌, get_elem?, map, ◌++◌,
}
use pcs_ii.Base.Int.{ℤ, pos, negsuc, ltb_ℤ}
use pcs_ii.Base.Outcome.{Outcome, ret, panic, ◌>>=◌}
use pcs_ii.Memory.{Memory, store_word, memset}
use pcs_ii.Kalloc.{Kmem, kfree, kalloc}
use pcs_ii.Vm.{Linker, allocuvm, deallocuvm, freevm}

pub data ProcState : Type 0 where
  unused embryo sleeping runnable running zombie : ProcState

-- A channel of sleep: the null pointer, a slot of ptable, or another kernel address.
pub data Chan : Type 0 where
  null : Chan
  proc_at : ℕ → Chan
  at : ℕ → Chan

abbrev pub chan_eq : Chan → Chan → Bool
chan_eq null null = true
chan_eq (proc_at i) (proc_at j) = i == j
chan_eq (at a) (at b) = a == b
chan_eq _ _ = false

abbrev pub is_unused : ProcState → Bool
is_unused unused = true
is_unused _ = false

abbrev pub is_sleeping : ProcState → Bool
is_sleeping sleeping = true
is_sleeping _ = false

abbrev pub is_runnable : ProcState → Bool
is_runnable runnable = true
is_runnable _ = false

abbrev pub is_zombie : ProcState → Bool
is_zombie zombie = true
is_zombie _ = false

-- Where swtch goes on when the process is scheduled.
pub data Context : Type 0 where
  no_context forkret_then_trapret in_sched : Context

-- A pid is a 32-bit pattern. `name` is the bytes of the debugging name.
pub record Proc : Type 0 where
  pub sz : ℕ
  pub pgdir : ℕ
  pub kstack : ℕ
  pub state : ProcState
  pub pid : ℕ
  pub parent : Option ℕ
  pub context : Context
  pub chan : Chan
  pub killed : Bool
  pub name : List ℕ
  pub priority : ℤ

-- ptable.proc, nextpid, initproc, and the page allocator.
pub record Kernel : Type 0 where
  pub procs : List Proc
  pub nextpid : ℕ
  pub initproc : Option ℕ
  pub kmem : Kmem

-- The first slot, from slot `i` on, that is UNUSED.
unfoldable pub find_unused : List Proc → ℕ → Option ℕ
find_unused [] i = none
find_unused (p ∷ ps) i = if is_unused p.state then some i else find_unused ps (i + 1)

abbrev pub as_embryo : ℕ → Proc → Proc
as_embryo pid p = record p { state = embryo; pid = pid; priority = pos 10 }

abbrev pub with_kstack : ℕ → Proc → Proc
with_kstack page p = record p { kstack = page; context = forkret_then_trapret }

-- The kernel stack in `page`: below the trap frame of 76 bytes stands trapret as a return address,
-- and below that the context of 20 bytes, all zero but its eip, which is forkret.
unfoldable pub new_stack : Linker → Memory → ℕ → Memory
new_stack l m page =
    let sp = page + 4096 - 76 - 4 in
    store_word (memset (store_word m sp l.trapret) (sp - 20) 0 20) (sp - 20 + 16) l.forkret

abbrev pub as_unused : Proc → Proc
as_unused p = record p { kstack = 0; state = unused }

-- The second half of allocproc, with slot `i` found.
unfoldable pub fill_slot : Linker → Kernel → ℕ → Option ℕ × Kernel
unfolding new_stack
fill_slot l k i =
    let procs = modify k.procs i (as_embryo k.nextpid) in
    let (page, kmem) = kalloc k.kmem in
    let pid' = (k.nextpid + 1) % 2 ^ 32 in
    if page == 0
    then (none, record k { procs = modify procs i as_unused; nextpid = pid'; kmem = kmem })
    else (
      some i,
      record k {
        procs = modify procs i (with_kstack page);
        nextpid = pid';
        kmem = record kmem { mem = new_stack l kmem.mem page };
      },
    )

unfoldable pub allocproc : Linker → Kernel → Option ℕ × Kernel
unfolding fill_slot
allocproc l k = elim (find_unused k.procs 0) [ none ↦ (none, k) | some i ↦ fill_slot l k i ]

abbrev pub wake : Chan → Proc → Proc
wake c p = if is_sleeping p.state && chan_eq p.chan c then record p { state = runnable } else p

unfoldable pub wakeup1 : List Proc → Chan → List Proc
wakeup1 ps c = map (wake c) ps

unfoldable pub wakeup : Kernel → Chan → Kernel
unfolding wakeup1
wakeup k c = record k { procs = wakeup1 k.procs c }

-- From the stores of p->chan and p->state, with ptable.lock held, to the switch in sched().
unfoldable pub sleep_enter : List Proc → ℕ → Chan → List Proc
sleep_enter ps cur c =
    modify ps cur λ p. record p { chan = c; state = sleeping; context = in_sched }

-- The store of p->chan after the return of sched().
unfoldable pub sleep_leave : List Proc → ℕ → List Proc
sleep_leave ps cur = modify ps cur λ p. record p { chan = null }

unfoldable pub yield : List Proc → ℕ → List Proc
yield ps cur = modify ps cur λ p. record p { state = runnable; context = in_sched }

-- The process that kill finds: it is marked, and woken if it sleeps.
abbrev pub mark_killed : Proc → Proc
mark_killed p = record p {
  killed = true;
  state = if is_sleeping p.state then runnable else p.state;
}

-- The first slot with the pid is changed; false is the return of -1.
unfoldable pub on_pid : List Proc → ℕ → (Proc → Proc) → Bool × List Proc
on_pid [] pid f = (false, [])
on_pid (p ∷ ps) pid f =
    let (found, ps') = on_pid ps pid f in
    if p.pid == pid then (true, f p ∷ ps) else (found, p ∷ ps')

unfoldable pub kill : List Proc → ℕ → Bool × List Proc
kill ps pid = on_pid ps pid mark_killed

unfoldable pub setpriority : List Proc → ℕ → ℤ → Bool × List Proc
setpriority ps pid priority = on_pid ps pid λ p. record p { priority = priority }

-- The inner loop of scheduler(): is there a RUNNABLE process of a higher priority?
unfoldable pub exists_higher : List Proc → ℤ → Bool
exists_higher [] priority = false
exists_higher (p ∷ ps) priority =
    if is_runnable p.state && ltb_ℤ priority p.priority then true else exists_higher ps priority

-- Does the scheduler, at this process, switch to it?
unfoldable pub is_chosen : List Proc → Proc → Bool
unfolding exists_higher
is_chosen ps p = is_runnable p.state && not (exists_higher ps p.priority)

abbrev pub as_running : Proc → Proc
as_running p = record p { state = running }

-- One pass of scheduler() over `n` slots from slot `i` on. `run i` is all that happens to the table
-- from the switch to process i to the switch back. The result lists the switches, each with the
-- table that the scheduler chose by. A null kstack or pgdir makes switchuvm panic.
unfoldable pub sched_pass :
    (ℕ → List Proc → List Proc) → ℕ → ℕ → List Proc → Outcome (List (ℕ × List Proc) × List Proc)
unfolding is_chosen
sched_pass run zero i ps = ret ([], ps)
sched_pass run (suc n) i ps =
    let skip = sched_pass run n (i + 1) ps in
    elim (get_elem? ps i) [
      | none ↦ skip
      | some p ↦
          let go = sched_pass run n (i + 1) (run i (modify ps i as_running)) >>= λ r.
          ret ((i, ps) ∷ r.0, r.1) in
          if is_chosen ps p then (if p.kstack == 0 || p.pgdir == 0 then panic else go) else skip
    ]

abbrev pub parent_is : Option ℕ → ℕ → Bool
parent_is none cur = false
parent_is (some q) cur = q == cur

abbrev pub chan_of : Option ℕ → Chan
chan_of none = null
chan_of (some i) = proc_at i

-- One round of the loop of exit() at slot `i`, which holds `p`: a child of `cur` goes to init.
abbrev pub adopt : List Proc → ℕ → Proc → ℕ → Option ℕ → List Proc
adopt ps i p cur init =
    let moved = modify ps i λ q. record q { parent = init } in
    if parent_is p.parent cur
    then (if is_zombie p.state then wakeup1 moved (chan_of init) else moved)
    else ps

-- The loop over `n` slots from slot `i` on.
unfoldable pub reparent : ℕ → ℕ → List Proc → ℕ → Option ℕ → List Proc
unfolding wakeup1
reparent zero i ps cur init = ps
reparent (suc n) i ps cur init =
    let next : List Proc = elim (get_elem? ps i) [ none ↦ ps | some p ↦ adopt ps i p cur init ] in
    reparent n (i + 1) next cur init

-- exit() from the acquire of ptable.lock to the call of sched(); `n` is NPROC.
unfoldable pub exit_locked : ℕ → List Proc → ℕ → Option ℕ → Option ℕ → List Proc
unfolding reparent
exit_locked n ps cur parent init =
    modify (reparent n 0 (wakeup1 ps (chan_of parent)) cur init) cur
      λ p. record p { state = zombie; context = in_sched }

-- The scan of wait() from slot `i` on: the first ZOMBIE child, and havekids.
unfoldable pub scan_children : List Proc → ℕ → ℕ → Bool → Option ℕ × Bool
scan_children [] i cur havekids = (none, havekids)
scan_children (p ∷ ps) i cur havekids =
    let rest = scan_children ps (i + 1) cur (parent_is p.parent cur || havekids) in
    if parent_is p.parent cur && is_zombie p.state then (some i, true) else rest

pub data Waited : Type 0 where
  reaped : ℕ → Waited
  no_children : Waited
  wait_sleeps : Waited

-- `name[0] = 0`
abbrev pub clear_name : List ℕ → List ℕ
clear_name [] = []
clear_name (c ∷ cs) = 0 ∷ cs

abbrev pub as_reaped : Proc → Proc
as_reaped p = record p {
  kstack = 0;
  pid = 0;
  parent = none;
  name = clear_name p.name;
  killed = false;
  state = unused;
}

unfoldable pub reap : Linker → Kernel → ℕ → Proc → Outcome (Waited × Kernel)
reap l k i p = do
  m1 ← kfree l.end k.kmem p.kstack
  m2 ← freevm l m1 p.pgdir
  ret (reaped p.pid, record k { procs = modify k.procs i as_reaped; kmem = m2 })

abbrev pub is_killed : List Proc → ℕ → Bool
is_killed ps cur = elim (get_elem? ps cur) [ none ↦ false | some p ↦ p.killed ]

-- One round of the loop of wait(), up to the call of sleep.
unfoldable pub wait : Linker → Kernel → ℕ → Outcome (Waited × Kernel)
unfolding scan_children reap sleep_enter
wait l k cur =
    let (found, havekids) = scan_children k.procs 0 cur false in
    let none_found =
      if not havekids || is_killed k.procs cur
      then ret (no_children, k)
      else ret (wait_sleeps, record k { procs = sleep_enter k.procs cur (proc_at cur) }) in
    elim found [
      | none ↦ none_found
      | some i ↦ elim (get_elem? k.procs i) [ none ↦ panic | some p ↦ reap l k i p ]
    ]

-- growproc: false is the return of -1. `n` is a signed 32-bit number.
unfoldable pub growproc : Linker → Kmem → Proc → ℤ → Outcome (Bool × Kmem × Proc)
growproc l m p (pos zero) = ret (true, m, p)
growproc l m p (pos (suc n)) = do
  r ← allocuvm l m p.pgdir p.sz ((p.sz + suc n) % 2 ^ 32)
  if r.0 == 0 then ret (false, r.1, p) else ret (true, r.1, record p { sz = r.0 })
growproc l m p (negsuc n) = do
  r ← deallocuvm l m p.pgdir p.sz ((p.sz + 2 ^ 32 - suc n) % 2 ^ 32)
  if r.0 == 0 then ret (false, r.1, p) else ret (true, r.1, record p { sz = r.0 })

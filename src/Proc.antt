-- ===== src/Proc.antt =====
-- kernel/proc.c: the process table. Each definition is one stretch that the code runs under the
-- locks of the processes it touches, so that the locks themselves do not appear. Memory and page
-- tables are the results of the allocators that a routine calls; the open files of a process are in
-- Files.
pub mod Loops
pub mod Family
pub mod Exit
pub mod Quiet
pub mod Calls
pub mod Steps
pub mod Kill
mod Tests
use mp.Prelude.{
  ℕ, zero, suc, ◌+◌, ◌<◌, Bool, true, false, not, ◌&&◌, ◌||◌, ◌==◌, if◌then◌else◌, Option, none,
  some, List, [], Outcome, ok, panic,
}
use mp.Prelude.Int.{ℤ, pos, minus_one, eqb}
use mp.Prelude.Update.{update}
use mp.Param.{nproc}

-- `enum procstate`
pub data State : Type 0 where
  unused sleeping runnable running zombie : State

-- The value of the enumerator.
abbrev pub value : State → ℕ
value unused = 0
value sleeping = 1
value runnable = 2
value running = 3
value zombie = 4

-- What `chan` points to: nothing, an element of `proc`, or another object by its address.
pub data Chan : Type 0 where
  no_chan : Chan
  at_proc : ℕ → Chan
  at_address : ℕ → Chan

abbrev pub same_chan : Chan → Chan → Bool
same_chan no_chan no_chan = true
same_chan no_chan (at_proc b) = false
same_chan no_chan (at_address b) = false
same_chan (at_proc a) no_chan = false
same_chan (at_proc a) (at_proc b) = a == b
same_chan (at_proc a) (at_address b) = false
same_chan (at_address a) no_chan = false
same_chan (at_address a) (at_proc b) = false
same_chan (at_address a) (at_address b) = a == b

-- `struct proc`. A process is named by its index in `proc`; page addresses are numbers, 0 for null.
pub record Proc : Type 0 where
  pub state : State
  pub parent : Option ℕ
  pub chan : Chan
  pub killed : Bool
  pub xstate : ℤ
  pub pid : ℕ
  pub sz : ℕ
  pub trapframe : ℕ
  pub pagetable : ℕ
  pub name : List ℕ

pub record Table : Type 0 where
  pub proc : ℕ → Proc
  pub nextpid : ℕ
  pub initproc : ℕ

abbrev pub set_proc : ℕ → Proc → Table → Table
set_proc p x t = record t { proc = update t.proc p x }

abbrev pub in_state : State → Proc → Bool
in_state s x = value x.state == value s

abbrev pub child_of : ℕ → Option ℕ → Bool
child_of p none = false
child_of p (some q) = q == p

unfoldable pub allocpid : Table → ℕ × Table
allocpid t = (t.nextpid, record t { nextpid = t.nextpid + 1 })

-- The scan of `allocproc` from `p` on.
unfoldable pub find_unused : (ℕ → Proc) → ℕ → ℕ → Option ℕ
find_unused proc p zero = none
find_unused proc p (suc left) =
    let rest = find_unused proc (p + 1) left in if in_state unused (proc p) then some p else rest

unfoldable pub freeproc : ℕ → Table → Table
freeproc p t =
    set_proc p
      (record (t.proc p) {
        trapframe = 0;
        pagetable = 0;
        sz = 0;
        pid = 0;
        parent = none;
        name = [];
        chan = no_chan;
        killed = false;
        xstate = pos 0;
        state = unused;
      })
      t

-- `found` of `allocproc`, where `kalloc` returns `frame` and `proc_pagetable` returns `pages`.
abbrev alloc_found : ℕ → ℕ → ℕ → Table → Option ℕ × Table
alloc_found frame pages p t =
    let (pid, t1) = allocpid t in
    let t2 = set_proc p (record (t1.proc p) { pid = pid; trapframe = frame }) t1 in
    if frame == 0
    then (none, t2)
    else let t3 = set_proc p (record (t2.proc p) { pagetable = pages }) t2 in
      if pages == 0 then (none, freeproc p t3) else (some p, t3)

unfoldable pub allocproc : ℕ → ℕ → Table → Option ℕ × Table
allocproc frame pages t = elim (find_unused t.proc 0 nproc) [
  | none ↦ (none, t)
  | some p ↦ alloc_found frame pages p t
]

-- What `fork` does with the new process; `copied` says whether `uvmcopy` succeeds.
abbrev fork_into : ℕ → Bool → ℕ → Table → ℤ × Table
fork_into p copied np t =
    let x = record (t.proc np) {
      sz = (t.proc p).sz;
      parent = some p;
      name = (t.proc p).name;
      state = runnable;
    } in
    if copied then (pos x.pid, set_proc np x t) else (minus_one, freeproc np t)

unfoldable pub fork : ℕ → ℕ → ℕ → Bool → Table → ℤ × Table
fork p frame pages copied t =
    let (np, t') = allocproc frame pages t in
    elim np [ none ↦ (minus_one, t') | some n ↦ fork_into p copied n t' ]

unfoldable pub reparent_one : ℕ → ℕ → ℕ → (ℕ → Proc) → ℕ → Proc
reparent_one init p pp proc =
    if child_of p (proc pp).parent
    then update proc pp (record (proc pp) { parent = some init })
    else proc

-- The loop of `reparent` from `pp` on.
unfoldable pub reparent : ℕ → ℕ → ℕ → ℕ → (ℕ → Proc) → ℕ → Proc
reparent init p pp zero proc = proc
reparent init p pp (suc left) proc = reparent init p (pp + 1) left (reparent_one init p pp proc)

unfoldable pub wakeup1 : ℕ → Table → Table
wakeup1 p t =
    if same_chan (t.proc p).chan (at_proc p) && in_state sleeping (t.proc p)
    then set_proc p (record (t.proc p) { state = runnable }) t
    else t

-- `exit` up to the wakeup of init.
unfoldable pub exit_begin : ℕ → Table → Outcome Table
exit_begin p t = if p == t.initproc then panic else ok (wakeup1 t.initproc t)

-- The rest of `exit`, under the locks of the process and of `original_parent`.
unfoldable pub exit_finish : ℕ → ℕ → ℤ → Table → Table
exit_finish p original_parent status t =
    let t1 = record t { proc = reparent t.initproc p 0 nproc t.proc } in
    let t2 = wakeup1 original_parent t1 in
    set_proc p (record (t2.proc p) { xstate = status; state = zombie }) t2

unfoldable pub sleep : ℕ → Chan → Table → Table
sleep p chan t = set_proc p (record (t.proc p) { chan = chan; state = sleeping }) t

-- `sleep` after `sched` returns.
unfoldable pub wake_tidy : ℕ → Table → Table
wake_tidy p t = set_proc p (record (t.proc p) { chan = no_chan }) t

-- What the scan of `wait` from `np` on finds: an exited child, or whether there are children.
pub data Children : Type 0 where
  exited : ℕ → Children
  kids : Bool → Children

unfoldable pub wait_scan : ℕ → (ℕ → Proc) → ℕ → ℕ → Bool → Children
wait_scan p proc np zero havekids = kids havekids
wait_scan p proc np (suc left) havekids =
    let rest = wait_scan p proc (np + 1) left (havekids || child_of p (proc np).parent) in
    if child_of p (proc np).parent && in_state zombie (proc np) then exited np else rest

-- One round of `wait`: it returns, or it sleeps and a later round follows.
pub data Waited : Type 0 where
  returned : ℤ → Waited
  slept : Waited

-- `copied` says whether `copyout` of the status succeeds, or `addr` is 0.
unfoldable pub wait : ℕ → Bool → Table → Waited × Table
wait p copied t = elim (wait_scan p t.proc 0 nproc false) [
  | exited np ↦
      if copied then (returned (pos (t.proc np).pid), freeproc np t) else (returned minus_one, t)
  | kids havekids ↦
      if not havekids || (t.proc p).killed
      then (returned minus_one, t)
      else (slept, sleep p (at_proc p) t)
]

-- The switch of `scheduler` to `p`, if it can run.
unfoldable pub schedule : ℕ → Table → Table
schedule p t =
    if in_state runnable (t.proc p) then set_proc p (record (t.proc p) { state = running }) t else t

unfoldable pub yield : ℕ → Table → Table
yield p t = set_proc p (record (t.proc p) { state = runnable }) t

unfoldable pub wakeup_one : Chan → ℕ → (ℕ → Proc) → ℕ → Proc
wakeup_one chan p proc =
    if in_state sleeping (proc p) && same_chan (proc p).chan chan
    then update proc p (record (proc p) { state = runnable })
    else proc

-- The loop of `wakeup` from `p` on.
unfoldable pub wakeup : Chan → ℕ → ℕ → (ℕ → Proc) → ℕ → Proc
wakeup chan p zero proc = proc
wakeup chan p (suc left) proc = wakeup chan (p + 1) left (wakeup_one chan p proc)

-- The loop of `kill` from `p` on: the result, and the table.
unfoldable pub kill : ℤ → ℕ → ℕ → (ℕ → Proc) → ℤ × (ℕ → Proc)
kill pid p zero proc = (minus_one, proc)
kill pid p (suc left) proc =
    let rest = kill pid (p + 1) left proc in
    if eqb (pos (proc p).pid) pid
    then (
      pos 0,
      update proc p (record (proc p) {
        killed = true;
        state = if in_state sleeping (proc p) then runnable else (proc p).state;
      }),
    )
    else rest

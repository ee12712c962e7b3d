-- ===== src/Proc/Tests.antt =====
-- kernel/proc.c at concrete inputs: tests of the model, and the theorems applied.
use mp.Prelude.{ℕ, ◌==◌, ◌<◌, ◌≡◌, refl, true, false, if◌then◌else◌, none, some, [], arith}
use mp.Prelude.Int.{pos, minus_one}
use mp.Param.{nproc}
use mp.Proc.{
  Proc, Table, State, unused, running, no_chan, value, find_unused, allocproc, allocpid, fork, wait,
  wait_scan, returned, slept, kill, wakeup1, exit_finish, reparent, reparent_one,
}
use mp.Proc.Family.{World, IsSound}
use mp.Proc.Calls.{with_table}
use mp.Proc.Steps.{here, then_step, forks, Reaches-IsSound}
use mp.Proc.Kill.{kill_zero}

abbrev slot : State → ℕ → Proc
slot s pid = record {
  state = s;
  parent = none;
  chan = no_chan;
  killed = false;
  xstate = pos 0;
  pid = pid;
  sz = 0;
  trapframe = 0;
  pagetable = 0;
  name = [];
}

-- init alone, as process 0.
abbrev booted : Table
booted = record {
  proc = λ p. if 0 == p then slot running 1 else slot unused 0;
  nextpid = 2;
  initproc = 0;
}

abbrev alone : World
alone = record { table = booted; original_parent = λ p. none }

-- init makes a child.
abbrev with_child : Table
with_child = (fork 0 100 200 true booted).1

child : ((fork 0 100 200 true booted).0 ≡ pos 2) × ((with_child.proc 1).parent ≡ some 0)
unfolding fork allocproc allocpid find_unused
child = (refl, refl)

-- The child exits, and `wait` of init returns its pid.
waits_for_child :
    ((wait 0 true with_child).0 ≡ slept)
    × ((wait 0 true (exit_finish 1 0 (pos 7) with_child)).0 ≡ returned (pos 2))
    × ((wait 0 true booted).0 ≡ returned minus_one)
unfolding fork allocproc allocpid find_unused wait wait_scan exit_finish wakeup1 reparent
    reparent_one
waits_for_child = (refl, refl, refl)

alone-IsSound : IsSound alone
alone-IsSound = record {
  init_lt = omega arith;
  init_active = (omega arith, omega arith);
  parent = λ i lt used ne. absurd (ground arith);
  heard = λ p i hp hi ne waits child. ground arith;
  saved = λ p o hp e. cc;
}

Reaches-IsSound_example : IsSound (with_table alone with_child)
Reaches-IsSound_example =
    Reaches-IsSound alone (with_table alone with_child) alone-IsSound (
      then_step alone (with_table alone with_child) here (forks 0 100 200 true (omega arith, refl)))

kill_zero_example :
    ((kill (pos 0) 0 nproc booted.proc).0 ≡ pos 0)
    × ((p frame pages : ℕ)
        → 0 < frame
        → 0 < pages
        → let t' =
            (fork p frame pages true
              (record booted { proc = (kill (pos 0) 0 nproc booted.proc).1 })).1 in
          (value (t'.proc 1).state ≡ 2) × ((t'.proc 1).killed ≡ true))
kill_zero_example = kill_zero booted 1 (λ i lt. ground arith) (unfold find_unused in refl)

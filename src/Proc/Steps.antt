-- ===== src/Proc/Steps.antt =====
-- Any interleaving of the routines of kernel/proc.c: a step is what one process does under the locks
-- it holds.
use mp.Prelude.{ℕ, ◌<◌, ◌≡◌, ◌≢◌, Bool, none, some, ok}
use mp.Prelude.Int.{ℤ}
use mp.Prelude.Update.{update}
use mp.Param.{nproc}
use mp.Proc.{
  Table, Chan, at_address, fork, exit_begin, exit_finish, wait, sleep, wake_tidy, schedule, yield,
  wakeup, kill,
}
use mp.Proc.Family.{World, IsSound, quiet-IsSound}
use mp.Proc.Exit.{finished-IsSound, exit_finish-IsFinished}
use mp.Proc.Quiet.{
  schedule-IsQuiet, yield-IsQuiet, wake_tidy-IsQuiet, sleep_address-IsQuiet, exit_begin-IsQuiet,
  wakeup-IsQuiet, kill-IsQuiet,
}
use mp.Proc.Calls.{Runs, with_table, fork-IsSound, wait-IsSound, exit_looks-IsSound}

pub data Step (w : World) : World → Type 0 where
  forks :
      (p frame pages : ℕ) (copied : Bool)
      → Runs w p
      → Step w (with_table w (fork p frame pages copied w.table).1)
  exit_begins :
      (p : ℕ) (t : Table) → Runs w p → exit_begin p w.table ≡ ok t → Step w (with_table w t)
  exit_looks :
      (p o : ℕ)
      → Runs w p
      → p ≢ w.table.initproc
      → (w.table.proc p).parent ≡ some o
      → Step w (record w { original_parent = update w.original_parent p (some o) })
  exit_finishes :
      (p o : ℕ) (status : ℤ)
      → Runs w p
      → p ≢ w.table.initproc
      → w.original_parent p ≡ some o
      → Step w (record {
        table = exit_finish p o status w.table;
        original_parent = update w.original_parent p none;
      })
  waits : (p : ℕ) (copied : Bool) → Runs w p → Step w (with_table w (wait p copied w.table).1)
  sleeps : (p a : ℕ) → Runs w p → Step w (with_table w (sleep p (at_address a) w.table))
  tidies : (p : ℕ) → Runs w p → Step w (with_table w (wake_tidy p w.table))
  yields : (p : ℕ) → Runs w p → Step w (with_table w (yield p w.table))
  schedules : (p : ℕ) → p < nproc → Step w (with_table w (schedule p w.table))
  wakes :
      (chan : Chan)
      → Step w (with_table w (record w.table { proc = wakeup chan 0 nproc w.table.proc }))
  kills :
      (pid : ℤ)
      → Step w (with_table w (record w.table { proc = (kill pid 0 nproc w.table.proc).1 }))

pub data Reaches (w : World) : World → Type 0 where
  here : Reaches w w
  then_step : (v u : World) → Reaches w v → Step v u → Reaches w u

-- Every step keeps the invariant.
Step-IsSound : (w v : World) → IsSound w → Step w v → IsSound v
Step-IsSound w _ s (forks p frame pages copied runs) = fork-IsSound w p frame pages copied s runs
Step-IsSound w _ s (exit_begins p t runs e) = quiet-IsSound w t s (exit_begin-IsQuiet w.table t p e)
Step-IsSound w _ s (exit_looks p o runs ne is) = exit_looks-IsSound w p o s runs ne is
Step-IsSound w _ s (exit_finishes p o status runs ne is) =
    finished-IsSound w p o (exit_finish p o status w.table) s runs.0 ne is
      (exit_finish-IsFinished p o status w.table)
Step-IsSound w _ s (waits p copied runs) = wait-IsSound w p copied s runs
Step-IsSound w _ s (sleeps p a runs) =
    quiet-IsSound w (sleep p (at_address a) w.table) s (sleep_address-IsQuiet w.table p runs.1 a)
Step-IsSound w _ s (tidies p runs) =
    quiet-IsSound w (wake_tidy p w.table) s (wake_tidy-IsQuiet w.table p runs.1)
Step-IsSound w _ s (yields p runs) =
    quiet-IsSound w (yield p w.table) s (yield-IsQuiet w.table p runs.1)
Step-IsSound w _ s (schedules p hp) =
    quiet-IsSound w (schedule p w.table) s (schedule-IsQuiet w.table p)
Step-IsSound w _ s (wakes chan) =
    quiet-IsSound w (record w.table { proc = wakeup chan 0 nproc w.table.proc }) s
      (wakeup-IsQuiet w.table chan)
Step-IsSound w _ s (kills pid) =
    quiet-IsSound w (record w.table { proc = (kill pid 0 nproc w.table.proc).1 }) s
      (kill-IsQuiet w.table pid 0 nproc)

-- From a table that is sound, however the processes interleave fork, exit, wait, sleep, wakeup, kill,
-- yield and the scheduler, the table stays sound: every process in use but init has an active parent,
-- and no process but init sleeps in `wait` while one of its children is a zombie.
pub Reaches-IsSound : (w v : World) → IsSound w → Reaches w v → IsSound v
Reaches-IsSound w _ s here = s
Reaches-IsSound w u s (then_step v _ r step) = Step-IsSound v u (Reaches-IsSound w v s r) step

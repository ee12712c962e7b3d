-- ===== src/Proc/Calls.antt =====
-- `fork`, `wait` and the start of `exit` of kernel/proc.c keep the invariant of the process table.
use mp.Prelude.{
  ℕ, ◌<◌, ◌≡◌, ◌≢◌, refl, ◌⊎◌, inl, inr, Bool, true, false, not, ◌||◌, ◌==◌, none, some, [], arith,
  Bool-cases, Option-cases,
}
use mp.Prelude.Int.{pos}
use mp.Prelude.Update.{update}
use mp.Param.{nproc}
use mp.Proc.{
  Table, set_proc, value, no_chan, unused, at_proc, allocpid, allocproc, find_unused, freeproc,
  fork, wait, wait_scan, exited, kids, Children, sleep,
}
use mp.Proc.Loops.{find_unused-some, wait_scan-exited, wait_scan-kids}
use mp.Proc.Family.{World, IsActive, IsSound, quiet-IsSound, slot-IsSound, freed-IsSound}
use mp.Proc.Quiet.{pointwise-IsQuiet, sleep_wait-IsQuiet}

abbrev pub Runs : World → ℕ → Type 0
Runs w p = (p < nproc) × (value (w.table.proc p).state ≡ 3)

abbrev pub with_table : World → Table → World
with_table w t = record w { table = t }

module _ (p frame pages np : ℕ) (copied : Bool) (t : Table)
    (free : find_unused t.proc 0 nproc ≡ some np) where
  fork_init : (fork p frame pages copied t).1.initproc ≡ t.initproc
  unfolding fork allocproc allocpid freeproc
  fork_init = ground arith

  fork_other : (i : ℕ) → np ≢ i → (fork p frame pages copied t).1.proc i ≡ t.proc i
  unfolding fork allocproc allocpid freeproc
  fork_other i ne = ground arith

  fork_new :
      value (t.proc np).state ≡ 0
      → (value ((fork p frame pages copied t).1.proc np).state ≡ 0)
        ⊎ ((value ((fork p frame pages copied t).1.proc np).state ≡ 2)
            × (((fork p frame pages copied t).1.proc np).parent ≡ some p))
  unfolding fork allocproc allocpid freeproc
  fork_new was = elim (Bool-cases (frame == 0)) [
    | inl no_frame ↦ inl (ground arith)
    | inr framed ↦ elim (Bool-cases (pages == 0)) [
      | inl no_pages ↦ inl (ground arith)
      | inr paged ↦ elim (Bool-cases copied) [
        | inl done ↦ inr (ground arith, ground arith)
        | inr failed ↦ inl (ground arith)
      ]
    ]
  ]

fork_full :
    (p frame pages : ℕ) (copied : Bool) (t : Table)
    → find_unused t.proc 0 nproc ≡ none
    → (fork p frame pages copied t).1 ≡ t
unfolding fork allocproc
fork_full p frame pages copied t full = ground arith

pub fork-IsSound :
    (w : World) (p frame pages : ℕ) (copied : Bool)
    → IsSound w
    → Runs w p
    → IsSound (with_table w (fork p frame pages copied w.table).1)
fork-IsSound w p frame pages copied s (hp, runs) =
    elim (Option-cases (find_unused w.table.proc 0 nproc)) [
      | inl full ↦ rw (fork_full p frame pages copied w.table full) s
      | inr (np, free) ↦
          let (was, lo, hi, first) = find_unused-some w.table.proc 0 nproc np free in
          let t' : Table = (fork p frame pages copied w.table).1 in
          let active : IsActive (w.table.proc p) = (ground arith, ground arith) in
          let slot =
            slot-IsSound w np (t'.proc np) s (omega arith) was
              (elim (fork_new p frame pages np copied w.table free was) [
                | inl still ↦ inl still
                | inr (two, mine) ↦ inr (two, (p, mine, hp, active))
              ]) in
          quiet-IsSound (with_table w (set_proc np (t'.proc np) w.table)) t' slot (
            pointwise-IsQuiet (set_proc np (t'.proc np) w.table) t'
              (fork_init p frame pages np copied w.table free)
              (λ i. elim (Bool-cases (np == i)) [
                | inl it ↦ let e : np ≡ i = ground arith in ground arith
                | inr apart ↦
                    rw apart (fork_other p frame pages np copied w.table free i (ground arith))
              ]))
    ]

module _ (w : World) (p : ℕ) (copied : Bool) where
  wait_freed :
      (np : ℕ)
      → wait_scan p w.table.proc 0 nproc false ≡ exited np
      → copied ≡ true
      → (wait p copied w.table).1 ≡ freeproc np w.table
  unfolding wait
  wait_freed np found got = ground arith

  wait_kept :
      (np : ℕ)
      → wait_scan p w.table.proc 0 nproc false ≡ exited np
      → copied ≡ false
      → (wait p copied w.table).1 ≡ w.table
  unfolding wait
  wait_kept np found failed = ground arith

  wait_kids :
      (b : Bool)
      → wait_scan p w.table.proc 0 nproc false ≡ kids b
      → ((wait p copied w.table).1 ≡ w.table)
        ⊎ ((wait p copied w.table).1 ≡ sleep p (at_proc p) w.table)
  unfolding wait
  wait_kids b found = elim (Bool-cases (not b || (w.table.proc p).killed)) [
    | inl back ↦ inl (ground arith)
    | inr sleeps_on ↦ inr (ground arith)
  ]

Children-cases : (c : Children) → ((np : ℕ) × (c ≡ exited np)) ⊎ ((b : Bool) × (c ≡ kids b))
Children-cases (exited np) = inl (np, refl)
Children-cases (kids b) = inr (b, refl)

pub wait-IsSound :
    (w : World) (p : ℕ) (copied : Bool)
    → IsSound w
    → Runs w p
    → IsSound (with_table w (wait p copied w.table).1)
wait-IsSound w p copied s (hp, runs) =
    elim (Children-cases (wait_scan p w.table.proc 0 nproc false)) [
      | inl (np, found) ↦ elim (Bool-cases copied) [
        | inl got ↦
            let (mine, gone, lt) = wait_scan-exited p w.table.proc 0 nproc false np found in
            rw (wait_freed w p copied np found got) (
              unfold freeproc in
              freed-IsSound w np
                (record (w.table.proc np) {
                  trapframe = 0;
                  pagetable = 0;
                  sz = 0;
                  pid = 0;
                  parent = none;
                  name = [];
                  chan = no_chan;
                  killed = false;
                  xstate = pos 0;
                  state = unused;
                })
                s gone refl)
        | inr failed ↦ rw (wait_kept w p copied np found failed) s
      ]
      | inr (b, found) ↦ elim (wait_kids w p copied b found) [
        | inl back ↦ rw back s
        | inr sleeps_on ↦ rw sleeps_on (
            quiet-IsSound w (sleep p (at_proc p) w.table) s (
              sleep_wait-IsQuiet w.table p runs (λ c hc child.
                (wait_scan-kids p w.table.proc 0 nproc false b found c (omega arith) (omega arith)
                  child).0)))
      ]
    ]

pub exit_looks-IsSound :
    (w : World) (p o : ℕ)
    → IsSound w
    → Runs w p
    → p ≢ w.table.initproc
    → (w.table.proc p).parent ≡ some o
    → IsSound (record w { original_parent = update w.original_parent p (some o) })
exit_looks-IsSound w p o s (hp, runs) ne is =
    let (q, is_q, hq, nq, active) = s.parent p hp (ground arith) ne in
    let same : q ≡ o = ground arith in
    record {
      init_lt = s.init_lt;
      init_active = s.init_active;
      parent = s.parent;
      heard = s.heard;
      saved = λ a b ha at_exit. elim (Bool-cases (p == a)) [
        | inl it ↦
            let e : p ≡ a = ground arith in
            let eb : o ≡ b = ground arith in
            (rw (← eb, ← same) hq, rw (← e) ((ground arith, ground arith)), inl (rw (← e, ← eb) is))
        | inr apart ↦ s.saved a b ha (ground arith)
      ];
    }

-- ===== src/Proc/Kill.antt =====
-- `kill` of kernel/proc.c on the pid of the free slots.
use mp.Prelude.{
  ℕ, zero, suc, ◌+◌, ◌<◌, ◌≤◌, ◌≡◌, refl, ◌∙◌, Bool, true, ◌==◌, if◌then◌else◌, some, arith,
  Bool-cases, inl, inr,
}
use mp.Prelude.Int.{pos, eqb}
use mp.Prelude.Update.{update}
use mp.Param.{nproc}
use mp.Proc.{
  Proc, Table, value, in_state, unused, sleeping, runnable, find_unused, kill, fork, allocproc,
  allocpid, freeproc,
}
use mp.Proc.Loops.{find_unused-some}

abbrev marked : Proc → Proc
marked x = record x { killed = true; state = if in_state sleeping x then runnable else x.state }

-- The scan looks at nothing but the states.
find_unused-same :
    (f g : ℕ → Proc) (p left : ℕ)
    → ((i : ℕ) → in_state unused (f i) ≡ in_state unused (g i))
    → find_unused f p left ≡ find_unused g p left
unfolding find_unused
find_unused-same f g p zero same = refl
find_unused-same f g p (suc left) same =
    let ih = find_unused-same f g (p + 1) left same in let e = same p in ground (arith, e, ih)

-- Where the free slots are those with pid 0, `kill(0)` finds the slot that `allocproc` finds.
kill-find_unused :
    (proc : ℕ → Proc) (p left np : ℕ)
    → ((i : ℕ) → p ≤ i → i < p + left → ((proc i).pid == 0) ≡ in_state unused (proc i))
    → find_unused proc p left ≡ some np
    → kill (pos 0) p left proc ≡ (pos 0, update proc np (marked (proc np)))
unfolding kill find_unused
kill-find_unused proc p zero np free h = cc
kill-find_unused proc p (suc left) np free h = elim (Bool-cases (in_state unused (proc p))) [
  | inl found ↦
      let e : p ≡ np = ground arith in
      let none_yet : eqb (pos (proc p).pid) (pos 0) ≡ true =
        free p (omega arith) (omega arith) ∙ found in
      rw (none_yet, e)
  | inr used ↦
      let other : eqb (pos (proc p).pid) (pos 0) ≡ Bool.false =
        free p (omega arith) (omega arith) ∙ used in
      rw (other) (
        kill-find_unused proc (p + 1) left np (λ i lo hi. free i (omega arith) (omega arith))
          (ground arith))
]

fork-killed :
    (p frame pages np : ℕ) (t : Table)
    → 0 < frame
    → 0 < pages
    → find_unused t.proc 0 nproc ≡ some np
    → (value ((fork p frame pages true t).1.proc np).state ≡ 2)
      × (((fork p frame pages true t).1.proc np).killed ≡ (t.proc np).killed)
unfolding fork allocproc allocpid freeproc
fork-killed p frame pages np t hf hp free = (ground arith, ground arith)

-- `kill(0)` succeeds as soon as there is a free slot, where the free slots are those with pid 0, and
-- the next process that `fork` makes starts out killed.
pub kill_zero :
    (t : Table) (np : ℕ)
    → ((i : ℕ) → i < nproc → ((t.proc i).pid == 0) ≡ in_state unused (t.proc i))
    → find_unused t.proc 0 nproc ≡ some np
    → ((kill (pos 0) 0 nproc t.proc).0 ≡ pos 0)
      × ((p frame pages : ℕ)
          → 0 < frame
          → 0 < pages
          → let t' =
              (fork p frame pages true (record t { proc = (kill (pos 0) 0 nproc t.proc).1 })).1 in
            (value (t'.proc np).state ≡ 2) × ((t'.proc np).killed ≡ true))
kill_zero t np free found =
    let e = kill-find_unused t.proc 0 nproc np (λ i lo hi. free i (omega arith)) found in
    let (was, lo, hi, first) = find_unused-some t.proc 0 nproc np found in
    let after : ℕ → Proc = update t.proc np (marked (t.proc np)) in
    let same : (i : ℕ) → in_state unused (after i) ≡ in_state unused (t.proc i) =
      λ i. ground arith in
    let found' : find_unused after 0 nproc ≡ some np =
      find_unused-same after t.proc 0 nproc same ∙ found in
    rw e (
      refl,
      λ p frame pages hf hp.
          let (runs, kept) =
            fork-killed p frame pages np (record t { proc = after }) hf hp found' in
          (runs, kept ∙ ground arith),
    )

-- ===== src/Proc/Family.antt =====
-- Parents, children and exits in the process table: the invariant, and the changes that keep it.
use mp.Prelude.{
  ℕ, ◌<◌, ◌≡◌, ◌≢◌, sym, ◌∙◌, ◌⊎◌, inl, inr, Bool, true, ◌&&◌, ◌==◌, Option, some, arith,
  Bool-cases,
}
use mp.Prelude.Update.{update}
use mp.Param.{nproc}
use mp.Proc.{Proc, Table, set_proc, value, in_state, sleeping, unused, zombie, at_proc, same_chan}

-- The table, with the local variable `original_parent` of the processes that are in `exit`.
pub record World : Type 0 where
  pub table : Table
  pub original_parent : ℕ → Option ℕ

abbrev pub IsActive : Proc → Type 0
IsActive x = (value x.state ≢ 0) × (value x.state ≢ 4)

-- The process sleeps in `wait`.
abbrev pub in_wait : ℕ → Proc → Bool
in_wait p x = same_chan x.chan (at_proc p) && in_state sleeping x

pub record IsSound (w : World) : Type 0 where
  pub init_lt : w.table.initproc < nproc
  pub init_active : IsActive (w.table.proc w.table.initproc)
  pub parent :
      (i : ℕ)
      → i < nproc
      → value (w.table.proc i).state ≢ 0
      → i ≢ w.table.initproc
      → (q : ℕ) × ((w.table.proc i).parent ≡ some q)
        × (q < nproc)
        × (q ≢ i)
        × IsActive (w.table.proc q)
  pub heard :
      (p i : ℕ)
      → p < nproc
      → i < nproc
      → p ≢ w.table.initproc
      → in_wait p (w.table.proc p) ≡ true
      → (w.table.proc i).parent ≡ some p
      → value (w.table.proc i).state ≢ 4
  pub saved :
      (p o : ℕ)
      → p < nproc
      → w.original_parent p ≡ some o
      → (o < nproc)
        × IsActive (w.table.proc p)
        × (((w.table.proc p).parent ≡ some o) ⊎ ((w.table.proc p).parent ≡ some w.table.initproc))

-- A change that starts, ends and moves no process, where a process starts to wait only if none of
-- its children has exited.
pub record IsQuiet (t t' : Table) : Type 0 where
  pub init : t'.initproc ≡ t.initproc
  pub parent : (i : ℕ) → (t'.proc i).parent ≡ (t.proc i).parent
  pub unused_same : (i : ℕ) → in_state unused (t'.proc i) ≡ in_state unused (t.proc i)
  pub zombie_same : (i : ℕ) → in_state zombie (t'.proc i) ≡ in_state zombie (t.proc i)
  pub waits :
      (i : ℕ)
      → in_wait i (t'.proc i) ≡ true
      → (in_wait i (t.proc i) ≡ true)
        ⊎ ((c : ℕ) → c < nproc → (t.proc c).parent ≡ some i → value (t.proc c).state ≢ 4)

module _ (t t' : Table) (k : IsQuiet t t') where
  quiet-IsActive : (i : ℕ) → IsActive (t.proc i) → IsActive (t'.proc i)
  quiet-IsActive i (a, b) = (
    (let z = k.unused_same i in ground (arith, z)),
    (let z = k.zombie_same i in ground (arith, z)),
  )

  quiet-used : (i : ℕ) → value (t'.proc i).state ≢ 0 → value (t.proc i).state ≢ 0
  quiet-used i h = let z = k.unused_same i in ground (arith, z)

  quiet-zombie : (i : ℕ) → value (t.proc i).state ≢ 4 → value (t'.proc i).state ≢ 4
  quiet-zombie i h = let z = k.zombie_same i in ground (arith, z)

pub quiet-IsSound :
    (w : World) (t' : Table) → IsSound w → IsQuiet w.table t' → IsSound (record w { table = t' })
quiet-IsSound w t' s k = record {
  init_lt = rw k.init s.init_lt;
  init_active = rw k.init (quiet-IsActive w.table t' k w.table.initproc s.init_active);
  parent = λ i lt used ne.
      let (q, is, hq, nq, active) =
        s.parent i lt (quiet-used w.table t' k i used) (λ e. ne (e ∙ sym k.init)) in
      (q, k.parent i ∙ is, hq, nq, quiet-IsActive w.table t' k q active);
  heard = λ p i hp hi ne waits child. quiet-zombie w.table t' k i (elim (k.waits p waits) [
    | inl before ↦ s.heard p i hp hi (λ e. ne (e ∙ sym k.init)) before (sym (k.parent i) ∙ child)
    | inr none_exited ↦ none_exited i hi (sym (k.parent i) ∙ child)
  ]);
  saved = λ p o hp is.
      let (ho, active, which) = s.saved p o hp is in
      (ho, quiet-IsActive w.table t' k p active, rw (k.parent p, k.init) which);
}

-- An active process is not an unused slot.
other_slot :
    (t : Table) (np : ℕ) (x : Proc) (i : ℕ)
    → value (t.proc np).state ≡ 0
    → value (t.proc i).state ≢ 0
    → update t.proc np x i ≡ t.proc i
other_slot t np x i free used = ground arith

-- A change of an unused slot: it stays unused, or it becomes a child of an active process.
pub slot-IsSound :
    (w : World) (np : ℕ) (x : Proc)
    → IsSound w
    → np < nproc
    → value (w.table.proc np).state ≡ 0
    → (value x.state ≡ 0)
      ⊎ ((value x.state ≡ 2)
          × ((p : ℕ) × (x.parent ≡ some p) × (p < nproc) × IsActive (w.table.proc p)))
    → IsSound (record w { table = set_proc np x w.table })
slot-IsSound w np x s hnp free new =
    let kept : (i : ℕ) → IsActive (w.table.proc i) → IsActive (update w.table.proc np x i) =
      λ i active. rw (other_slot w.table np x i free active.0) active in
    record {
      init_lt = s.init_lt;
      init_active = kept w.table.initproc s.init_active;
      parent = λ i lt used ne. elim (Bool-cases (np == i)) [
        | inl here ↦ elim new [
          | inl still ↦ absurd (ground arith)
          | inr (runs, (p, is, hp, active)) ↦ (p, ground arith, hp, ground arith, kept p active)
        ]
        | inr other ↦
            let (q, is, hq, nq, active) = s.parent i lt (ground arith) ne in
            (q, ground arith, hq, nq, kept q active)
      ];
      heard = λ p i hp hi ne waits child. elim (Bool-cases (np == i)) [
        | inl here ↦ ground arith
        | inr other ↦ elim (Bool-cases (np == p)) [
          | inl it ↦ absurd (ground arith)
          | inr apart ↦ let z = s.heard p i hp hi ne (ground arith) (ground arith) in ground arith
        ]
      ];
      saved = λ p o hp is.
          let (ho, active, which) = s.saved p o hp is in
          (ho, kept p active, rw (other_slot w.table np x p free active.0) which);
    }

-- `wait` frees an exited child.
pub freed-IsSound :
    (w : World) (np : ℕ) (x : Proc)
    → IsSound w
    → value (w.table.proc np).state ≡ 4
    → value x.state ≡ 0
    → IsSound (record w { table = set_proc np x w.table })
freed-IsSound w np x s was now =
    let kept : (i : ℕ) → IsActive (w.table.proc i) → update w.table.proc np x i ≡ w.table.proc i =
      λ i active. let z = active.1 in ground arith in
    record {
      init_lt = s.init_lt;
      init_active = rw (kept w.table.initproc s.init_active) s.init_active;
      parent = λ i lt used ne.
          let (q, is, hq, nq, active) = s.parent i lt (ground arith) ne in
          (q, ground arith, hq, nq, rw (kept q active) active);
      heard = λ p i hp hi ne waits child. elim (Bool-cases (np == i)) [
        | inl here ↦ ground arith
        | inr other ↦ elim (Bool-cases (np == p)) [
          | inl it ↦ absurd (ground arith)
          | inr apart ↦ let z = s.heard p i hp hi ne (ground arith) (ground arith) in ground arith
        ]
      ];
      saved = λ p o hp is.
          let (ho, active, which) = s.saved p o hp is in
          (ho, rw (kept p active) active, rw (kept p active) which);
    }

-- ===== src/Proc/Exit.antt =====
-- The end of `exit` of kernel/proc.c: the children go to init, the parent is woken, and the process
-- is a zombie.
use mp.Prelude.{
  ℕ, ◌<◌, ◌≡◌, ◌≢◌, sym, ap, ap₂, ◌∙◌, inl, inr, true, false, ◌&&◌, ◌==◌, ltb, leb, none, some,
  arith, Bool-cases,
}
use mp.Prelude.Int.{ℤ}
use mp.Prelude.Update.{update}
use mp.Param.{nproc}
use mp.Proc.{
  Proc, Table, value, in_state, unused, zombie, at_proc, same_chan, child_of, reparent, wakeup1,
  exit_finish,
}
use mp.Proc.Loops.{adopted, reparent-adopted}
use mp.Proc.Family.{World, IsActive, IsSound, in_wait}

pub record IsFinished (t t' : Table) (p orig : ℕ) : Type 0 where
  pub init : t'.initproc ≡ t.initproc
  pub dead : value (t'.proc p).state ≡ 4
  pub parent : (i : ℕ) → i < nproc → (t'.proc i).parent ≡ (adopted t.initproc p (t.proc i)).parent
  pub unused_same :
      (i : ℕ) → i < nproc → p ≢ i → in_state unused (t'.proc i) ≡ in_state unused (t.proc i)
  pub zombie_same :
      (i : ℕ) → i < nproc → p ≢ i → in_state zombie (t'.proc i) ≡ in_state zombie (t.proc i)
  pub waits :
      (i : ℕ) → i < nproc → p ≢ i → in_wait i (t'.proc i) ≡ true → in_wait i (t.proc i) ≡ true
  pub woke : in_wait orig (t'.proc orig) ≡ false

adopted-none :
    (init p : ℕ) (x : Proc) (q : ℕ) → x.parent ≡ some q → q ≢ p → (adopted init p x).parent ≡ some q
adopted-none init p x q e ne = ground arith

adopted-init : (init p : ℕ) (x : Proc) → x.parent ≡ some p → (adopted init p x).parent ≡ some init
adopted-init init p x e = ground arith

-- A parent that is not init is the parent from before, and not the process that exits.
adopted-other :
    (init p : ℕ) (x : Proc) (q : ℕ)
    → (adopted init p x).parent ≡ some q
    → q ≢ init
    → (x.parent ≡ some q) × (q ≢ p)
adopted-other init p x q e ne = ground arith

pub finished-IsSound :
    (w : World) (p orig : ℕ) (t' : Table)
    → IsSound w
    → p < nproc
    → p ≢ w.table.initproc
    → w.original_parent p ≡ some orig
    → IsFinished w.table t' p orig
    → IsSound (record { table = t'; original_parent = update w.original_parent p none })
finished-IsSound w p orig t' s hp ne is f =
    let kept : (i : ℕ) → i < nproc → p ≢ i → IsActive (w.table.proc i) → IsActive (t'.proc i) =
      λ i hi other (a, b).
        let u = f.unused_same i hi other in
        let z = f.zombie_same i hi other in (ground (arith, u), ground (arith, z)) in
    let (ho, p_active, which) = s.saved p orig hp is in
    record {
      init_lt = rw f.init s.init_lt;
      init_active = rw f.init (kept w.table.initproc s.init_lt ne s.init_active);
      parent = λ i hi used ni.
          let other_init : i ≢ w.table.initproc = λ e. ni (e ∙ sym f.init) in
          let before : value (w.table.proc i).state ≢ 0 = elim (Bool-cases (p == i)) [
            | inl here ↦ let e : p ≡ i = ground arith in rw (← e) p_active.0
            | inr apart ↦ let u = f.unused_same i hi (ground arith) in ground (arith, u)
          ] in
          let (q, is_q, hq, nq, active) = s.parent i hi before other_init in
          elim (Bool-cases (q == p)) [
            | inl it ↦
                let e : q ≡ p = ground arith in
                let mine : (w.table.proc i).parent ≡ some p = is_q ∙ rw e in
                (
                  w.table.initproc,
                  f.parent i hi ∙ adopted-init w.table.initproc p (w.table.proc i) mine,
                  s.init_lt,
                  λ e'. other_init (sym e'),
                  kept w.table.initproc s.init_lt ne s.init_active,
                )
            | inr apart ↦
                let n : q ≢ p = ground arith in
                (
                  q,
                  f.parent i hi ∙ adopted-none w.table.initproc p (w.table.proc i) q is_q n,
                  hq,
                  nq,
                  kept q hq (λ e. n (sym e)) active,
                )
          ];
      heard = λ a i ha hi na waits child.
          let other_init : a ≢ w.table.initproc = λ e. na (e ∙ sym f.init) in
          let (mine, apart) =
            adopted-other w.table.initproc p (w.table.proc i) a (sym (f.parent i hi) ∙ child)
              other_init in
          elim (Bool-cases (p == i)) [
            | inl here ↦
                let e : p ≡ i = ground arith in
                let mine' : (w.table.proc p).parent ≡ some a = rw e mine in
                let same : orig ≡ a = ground arith in
                let woke : in_wait a (t'.proc a) ≡ false = rw (← same) f.woke in ground arith
            | inr before ↦
                let n : p ≢ i = ground arith in
                let z = f.zombie_same i hi n in
                let old =
                  s.heard a i ha hi other_init (f.waits a ha (λ e. apart (sym e)) waits) mine in
                ground (arith, z, old)
          ];
      saved = λ a o ha at_exit. elim (Bool-cases (p == a)) [
        | inl here ↦ ground arith
        | inr apart ↦
            let n : p ≢ a = ground arith in
            let (hoo, active, parents) = s.saved a o ha (ground arith) in
            (
              hoo,
              kept a ha n active,
              elim (Bool-cases (child_of p (w.table.proc a).parent)) [
                | inl moved ↦ inr (f.parent a ha ∙ ground arith)
                | inr stays ↦ let e = f.parent a ha in rw (f.init) (ground arith)
              ],
            )
      ];
    }

-- The table of `exit_finish` at each process.
exit_finish_self :
    (p orig : ℕ) (status : ℤ) (t : Table) → value ((exit_finish p orig status t).proc p).state ≡ 4
unfolding exit_finish
exit_finish_self p orig status t = ground arith

module _ (q : ℕ) (t : Table) (i : ℕ) where
  wakeup1-unused : in_state unused ((wakeup1 q t).proc i) ≡ in_state unused (t.proc i)
  unfolding wakeup1
  wakeup1-unused = ground arith

  wakeup1-zombie : in_state zombie ((wakeup1 q t).proc i) ≡ in_state zombie (t.proc i)
  unfolding wakeup1
  wakeup1-zombie = ground arith

  wakeup1-waits : in_wait i ((wakeup1 q t).proc i) ≡ true → in_wait i (t.proc i) ≡ true
  unfolding wakeup1
  wakeup1-waits h = ground arith

adopted-state : (init p : ℕ) (x : Proc) → (adopted init p x).state ≡ x.state
adopted-state init p x = ground arith

adopted-chan : (init p : ℕ) (x : Proc) → (adopted init p x).chan ≡ x.chan
adopted-chan init p x = ground arith

wakeup1-woke : (q : ℕ) (t : Table) → in_wait q ((wakeup1 q t).proc q) ≡ false
unfolding wakeup1
wakeup1-woke q t = ground arith

wakeup1-init : (q : ℕ) (t : Table) → (wakeup1 q t).initproc ≡ t.initproc
unfolding wakeup1
wakeup1-init q t = ground arith

abbrev with_init : ℕ → Table → Table
with_init p t = record t { proc = reparent t.initproc p 0 nproc t.proc }

exit_finish-other :
    (p orig : ℕ) (status : ℤ) (t : Table) (i : ℕ)
    → p ≢ i
    → (exit_finish p orig status t).proc i ≡ (wakeup1 orig (with_init p t)).proc i
unfolding exit_finish
exit_finish-other p orig status t i ne = ground arith

exit_finish-parent_self :
    (p orig : ℕ) (status : ℤ) (t : Table)
    → ((exit_finish p orig status t).proc p).parent ≡ ((wakeup1 orig (with_init p t)).proc p).parent
unfolding exit_finish
exit_finish-parent_self p orig status t = ground arith

wakeup1-parent : (q : ℕ) (t : Table) (i : ℕ) → ((wakeup1 q t).proc i).parent ≡ (t.proc i).parent
unfolding wakeup1
wakeup1-parent q t i = ground arith

with_init-adopted :
    (p : ℕ) (t : Table) (i : ℕ)
    → i < nproc
    → (with_init p t).proc i ≡ adopted t.initproc p (t.proc i)
with_init-adopted p t i hi =
    let e : (leb 0 i && ltb i nproc) ≡ true = ground arith in
    reparent-adopted t.initproc p 0 nproc t.proc i ∙ rw e

pub exit_finish-IsFinished :
    (p orig : ℕ) (status : ℤ) (t : Table) → IsFinished t (exit_finish p orig status t) p orig
exit_finish-IsFinished p orig status t = record {
  init = (unfold exit_finish in wakeup1-init orig (with_init p t));
  dead = exit_finish_self p orig status t;
  parent = λ i hi. elim (Bool-cases (p == i)) [
    | inl here ↦
        let e : p ≡ i = ground arith in
        rw (← e) (
          exit_finish-parent_self p orig status t
          ∙ wakeup1-parent orig (with_init p t) p
          ∙ ap (λ x. x.parent) (with_init-adopted p t p (rw e hi)))
    | inr apart ↦
        ap (λ x. x.parent) (exit_finish-other p orig status t i (ground arith))
        ∙ wakeup1-parent orig (with_init p t) i
        ∙ ap (λ x. x.parent) (with_init-adopted p t i hi)
  ];
  unused_same = λ i hi ne.
      ap (in_state unused) (exit_finish-other p orig status t i ne)
      ∙ wakeup1-unused orig (with_init p t) i
      ∙ ap (in_state unused) (with_init-adopted p t i hi)
      ∙ ap (λ s. value s == 0) (adopted-state t.initproc p (t.proc i));
  zombie_same = λ i hi ne.
      ap (in_state zombie) (exit_finish-other p orig status t i ne)
      ∙ wakeup1-zombie orig (with_init p t) i
      ∙ ap (in_state zombie) (with_init-adopted p t i hi)
      ∙ ap (λ s. value s == 4) (adopted-state t.initproc p (t.proc i));
  waits = λ i hi ne h.
      let waits =
        wakeup1-waits orig (with_init p t) i
          (sym (ap (in_wait i) (exit_finish-other p orig status t i ne)) ∙ h) in
      sym (
        ap (in_wait i) (with_init-adopted p t i hi)
        ∙ ap₂ (λ c s. same_chan c (at_proc i) && (value s == 1))
            (adopted-chan t.initproc p (t.proc i)) (adopted-state t.initproc p (t.proc i)))
      ∙ waits;
  woke = elim (Bool-cases (p == orig)) [
    | inl it ↦ let dead = exit_finish_self p orig status t in ground (arith, dead)
    | inr apart ↦
        ap (in_wait orig) (exit_finish-other p orig status t orig (ground arith))
        ∙ wakeup1-woke orig (with_init p t)
  ];
}

-- ===== src/Proc/Quiet.antt =====
-- The routines of kernel/proc.c that start and end no process.
use mp.Prelude.{
  ℕ, zero, suc, ◌+◌, ◌<◌, ◌≡◌, ◌≢◌, refl, sym, ap, ◌∙◌, ◌⊎◌, inl, inr, Bool, true, ◌&&◌, ◌==◌, ltb,
  leb, if◌then◌else◌, some, arith, Bool-cases, ok, ==_refl, subst,
}
use mp.Prelude.Int.{ℤ, pos, eqb}
use mp.Prelude.Update.{update, update_self, update_ne}
use mp.Param.{nproc}
use mp.Proc.{
  Proc, Table, set_proc, value, in_state, sleeping, unused, zombie, runnable, running, Chan,
  no_chan, at_proc, at_address, same_chan, wakeup1, wakeup, exit_begin, sleep, wake_tidy, schedule,
  yield, kill,
}
use mp.Proc.Loops.{woken, wakeup-woken}
use mp.Proc.Family.{IsQuiet, in_wait}

-- No child of the process has exited.
abbrev pub NoneExited : Table → ℕ → Type 0
NoneExited t p = (c : ℕ) → c < nproc → (t.proc c).parent ≡ some p → value (t.proc c).state ≢ 4

pub one-IsQuiet :
    (t : Table) (p : ℕ) (x : Proc)
    → x.parent ≡ (t.proc p).parent
    → in_state unused x ≡ in_state unused (t.proc p)
    → in_state zombie x ≡ in_state zombie (t.proc p)
    → (in_wait p x ≡ true → (in_wait p (t.proc p) ≡ true) ⊎ NoneExited t p)
    → IsQuiet t (set_proc p x t)
one-IsQuiet t p x parent dead gone waits = record {
  init = refl;
  parent = λ i. elim (Bool-cases (p == i)) [
    | inl here ↦ let e : p ≡ i = ground arith in rw (← e, ==_refl p) parent
    | inr apart ↦ rw apart
  ];
  unused_same = λ i. elim (Bool-cases (p == i)) [
    | inl here ↦ let e : p ≡ i = ground arith in rw (← e, ==_refl p) dead
    | inr apart ↦ rw apart
  ];
  zombie_same = λ i. elim (Bool-cases (p == i)) [
    | inl here ↦ let e : p ≡ i = ground arith in rw (← e, ==_refl p) gone
    | inr apart ↦ rw apart
  ];
  waits = λ i h. elim (Bool-cases (p == i)) [
    | inl here ↦
        let e : p ≡ i = ground arith in
        subst (λ j. (in_wait j (t.proc j) ≡ true) ⊎ NoneExited t j) e
          (waits (
            ap (in_wait p) (sym (update_self t.proc p x))
            ∙ subst (λ j. in_wait j (update t.proc p x j) ≡ true) (sym e) h))
    | inr apart ↦ inl (subst (λ y. in_wait i y ≡ true) (update_ne t.proc p i x (ground arith)) h)
  ];
}

pub same-IsQuiet : (t : Table) → IsQuiet t t
same-IsQuiet t = record {
  init = refl;
  parent = λ i. refl;
  unused_same = λ i. refl;
  zombie_same = λ i. refl;
  waits = λ i h. inl h;
}

pub pointwise-IsQuiet :
    (t t' : Table) → t'.initproc ≡ t.initproc → ((i : ℕ) → t'.proc i ≡ t.proc i) → IsQuiet t t'
pointwise-IsQuiet t t' init same = record {
  init = init;
  parent = λ i. rw (same i);
  unused_same = λ i. rw (same i);
  zombie_same = λ i. rw (same i);
  waits = λ i h. inl (sym (ap (in_wait i) (same i)) ∙ h);
}

module _ (t : Table) (p : ℕ) where
  wakeup1-IsQuiet : IsQuiet t (wakeup1 p t)
  unfolding wakeup1
  wakeup1-IsQuiet =
      elim (Bool-cases (same_chan (t.proc p).chan (at_proc p) && in_state sleeping (t.proc p))) [
        | inl waits ↦ rw waits (
            one-IsQuiet t p (record (t.proc p) { state = runnable }) refl (ground arith)
              (ground arith) (λ h. ground arith))
        | inr awake ↦ rw awake (same-IsQuiet t)
      ]

  pub schedule-IsQuiet : IsQuiet t (schedule p t)
  unfolding schedule
  schedule-IsQuiet = elim (Bool-cases (in_state runnable (t.proc p))) [
    | inl can ↦ rw can (
        one-IsQuiet t p (record (t.proc p) { state = running }) refl (ground arith) (ground arith)
          (λ h. ground arith))
    | inr not_now ↦ rw not_now (same-IsQuiet t)
  ]

  module _ (runs : value (t.proc p).state ≡ 3) where
    pub yield-IsQuiet : IsQuiet t (yield p t)
    unfolding yield
    yield-IsQuiet =
        one-IsQuiet t p (record (t.proc p) { state = runnable }) refl (ground arith) (ground arith)
          (λ h. ground arith)

    pub wake_tidy-IsQuiet : IsQuiet t (wake_tidy p t)
    unfolding wake_tidy
    wake_tidy-IsQuiet =
        one-IsQuiet t p (record (t.proc p) { chan = no_chan }) refl refl refl (λ h. ground arith)

    pub sleep_address-IsQuiet : (a : ℕ) → IsQuiet t (sleep p (at_address a) t)
    unfolding sleep
    sleep_address-IsQuiet a =
        one-IsQuiet t p (record (t.proc p) { chan = at_address a; state = sleeping }) refl
          (ground arith) (ground arith) (λ h. ground arith)

    pub sleep_wait-IsQuiet : NoneExited t p → IsQuiet t (sleep p (at_proc p) t)
    unfolding sleep
    sleep_wait-IsQuiet none_exited =
        one-IsQuiet t p (record (t.proc p) { chan = at_proc p; state = sleeping }) refl
          (ground arith) (ground arith) (λ h. inr none_exited)

pub exit_begin-IsQuiet : (t t' : Table) (p : ℕ) → exit_begin p t ≡ ok t' → IsQuiet t t'
unfolding exit_begin
exit_begin-IsQuiet t t' p h =
    let e : wakeup1 t.initproc t ≡ t' = ground arith in rw (← e) (wakeup1-IsQuiet t t.initproc)

pub wakeup-IsQuiet :
    (t : Table) (chan : Chan) → IsQuiet t (record t { proc = wakeup chan 0 nproc t.proc })
wakeup-IsQuiet t chan =
    let not_more : (i : ℕ) (b : Bool)
        → in_wait i (if b then woken chan (t.proc i) else t.proc i) ≡ true
        → in_wait i (t.proc i) ≡ true =
      λ i b h. ground arith in
    record {
      init = refl;
      parent = λ i. rw (wakeup-woken chan 0 nproc t.proc i) (ground arith);
      unused_same = λ i. rw (wakeup-woken chan 0 nproc t.proc i) (ground arith);
      zombie_same = λ i. rw (wakeup-woken chan 0 nproc t.proc i) (ground arith);
      waits = λ i h.
          let e = wakeup-woken chan 0 nproc t.proc i in
          inl (not_more i (leb 0 i && ltb i nproc) (sym (ap (in_wait i) e) ∙ h));
    }

pub kill-IsQuiet :
    (t : Table) (pid : ℤ) (p left : ℕ) → IsQuiet t (record t { proc = (kill pid p left t.proc).1 })
unfolding kill
kill-IsQuiet t pid p zero = same-IsQuiet t
kill-IsQuiet t pid p (suc left) = elim (Bool-cases (eqb (pos (t.proc p).pid) pid)) [
  | inl found ↦ rw found (
      one-IsQuiet t p
        (record (t.proc p) {
          killed = true;
          state = if in_state sleeping (t.proc p) then runnable else (t.proc p).state;
        })
        refl (ground arith) (ground arith) (λ h. ground arith))
  | inr other ↦ rw other (kill-IsQuiet t pid (p + 1) left)
]

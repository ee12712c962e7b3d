-- ===== src/Proc/Loops.antt =====
-- What the loops of kernel/proc.c over the process table come to.
use mp.Prelude.{
  ℕ, zero, suc, ◌+◌, ◌≤◌, ◌<◌, ◌≡◌, ◌≢◌, refl, sym, ap, ◌∙◌, Bool, true, false, ◌&&◌, ◌||◌, ◌==◌,
  leb, ltb, if◌then◌else◌, some, arith, ==_refl, Bool-cases, inl, inr,
}
use mp.Proc.{
  Proc, sleeping, runnable, zombie, unused, in_state, value, Chan, same_chan, child_of, wakeup,
  wakeup_one, reparent, reparent_one, find_unused, wait_scan, exited, kids,
}

-- What a wakeup makes of one process.
abbrev pub woken : Chan → Proc → Proc
woken chan x =
    if in_state sleeping x && same_chan x.chan chan then record x { state = runnable } else x

abbrev between : ℕ → ℕ → ℕ → Bool
between i left j = leb i j && ltb j (i + left)

wakeup_one_self :
    (chan : Chan) (p j : ℕ) (proc : ℕ → Proc)
    → p ≡ j
    → wakeup_one chan p proc j ≡ woken chan (proc j)
unfolding wakeup_one
wakeup_one_self chan p j proc e = rw (e) (ground arith)

wakeup_one-other :
    (chan : Chan) (p j : ℕ) (proc : ℕ → Proc) → p ≢ j → wakeup_one chan p proc j ≡ proc j
unfolding wakeup_one
wakeup_one-other chan p j proc ne = ground arith

pub wakeup-woken :
    (chan : Chan) (p left : ℕ) (proc : ℕ → Proc) (j : ℕ)
    → wakeup chan p left proc j ≡ (if between p left j then woken chan (proc j) else proc j)
unfolding wakeup
wakeup-woken chan p zero proc j = let no : between p 0 j ≡ false = ground arith in rw no
wakeup-woken chan p (suc left) proc j = elim (Bool-cases (p == j)) [
  | inl here ↦
      let e : p ≡ j = ground arith in
      let yes : between p (suc left) j ≡ true = ground arith in
      let no : between (p + 1) left j ≡ false = ground arith in
      wakeup-woken chan (p + 1) left (wakeup_one chan p proc) j
      ∙ rw (no, yes) (wakeup_one_self chan p j proc e)
  | inr later ↦
      let ne : p ≢ j = ground arith in
      let same : between (p + 1) left j ≡ between p (suc left) j = ground arith in
      wakeup-woken chan (p + 1) left (wakeup_one chan p proc) j
      ∙ rw (wakeup_one-other chan p j proc ne, same)
]

abbrev pub adopted : ℕ → ℕ → Proc → Proc
adopted init p x = if child_of p x.parent then record x { parent = some init } else x

reparent_one_self :
    (init p pp j : ℕ) (proc : ℕ → Proc)
    → pp ≡ j
    → reparent_one init p pp proc j ≡ adopted init p (proc j)
unfolding reparent_one
reparent_one_self init p pp j proc e = rw (e) (ground arith)

reparent_one-other :
    (init p pp j : ℕ) (proc : ℕ → Proc) → pp ≢ j → reparent_one init p pp proc j ≡ proc j
unfolding reparent_one
reparent_one-other init p pp j proc ne = ground arith

pub reparent-adopted :
    (init p pp left : ℕ) (proc : ℕ → Proc) (j : ℕ)
    → reparent init p pp left proc j
      ≡ (if between pp left j then adopted init p (proc j) else proc j)
unfolding reparent
reparent-adopted init p pp zero proc j = let no : between pp 0 j ≡ false = ground arith in rw no
reparent-adopted init p pp (suc left) proc j = elim (Bool-cases (pp == j)) [
  | inl here ↦
      let e : pp ≡ j = ground arith in
      let yes : between pp (suc left) j ≡ true = ground arith in
      let no : between (pp + 1) left j ≡ false = ground arith in
      reparent-adopted init p (pp + 1) left (reparent_one init p pp proc) j
      ∙ rw (no, yes) (reparent_one_self init p pp j proc e)
  | inr later ↦
      let ne : pp ≢ j = ground arith in
      let same : between (pp + 1) left j ≡ between pp (suc left) j = ground arith in
      reparent-adopted init p (pp + 1) left (reparent_one init p pp proc) j
      ∙ rw (reparent_one-other init p pp j proc ne, same)
]

pub find_unused-some :
    (proc : ℕ → Proc) (p left q : ℕ)
    → find_unused proc p left ≡ some q
    → (value (proc q).state ≡ 0)
      × (p ≤ q)
      × (q < p + left)
      × ((j : ℕ) → p ≤ j → j < q → value (proc j).state ≢ 0)
unfolding find_unused
find_unused-some proc p zero q h = cc
find_unused-some proc p (suc left) q h = elim (Bool-cases (in_state unused (proc p))) [
  | inl free ↦
      let e : p ≡ q = ground arith in
      (rw (← e) (ground arith), omega arith, omega arith, λ j lo hi. absurd (omega arith))
  | inr used ↦
      let (a, b, c, d) = find_unused-some proc (p + 1) left q (ground arith) in
      (
        a,
        omega arith,
        omega arith,
        λ j lo hi. elim (Bool-cases (p == j)) [
          | inl here ↦ let e : p ≡ j = ground arith in rw (← e) (ground arith)
          | inr later ↦ d j (ground arith) hi
        ],
      )
]

pub wait_scan-exited :
    (p : ℕ) (proc : ℕ → Proc) (np left : ℕ) (havekids : Bool) (q : ℕ)
    → wait_scan p proc np left havekids ≡ exited q
    → ((proc q).parent ≡ some p) × (value (proc q).state ≡ 4) × (q < np + left)
unfolding wait_scan
wait_scan-exited p proc np zero havekids q h = cc
wait_scan-exited p proc np (suc left) havekids q h =
    elim (Bool-cases (child_of p (proc np).parent && in_state zombie (proc np))) [
      | inl found ↦
          let e : np ≡ q = ground arith in
          (rw (← e) (ground arith), rw (← e) (ground arith), omega arith)
      | inr other ↦
          let (a, b, c) =
            wait_scan-exited p proc (np + 1) left (havekids || child_of p (proc np).parent) q
              (ground arith) in
          (a, b, omega arith)
    ]

-- Without an exited child, none of the children in the range has exited.
or_true : (b : Bool) → (b || true) ≡ true
or_true true = refl
or_true false = refl

-- Once there is a child, the scan says so.
wait_scan-sticky :
    (p : ℕ) (proc : ℕ → Proc) (np left : ℕ) (r : Bool)
    → wait_scan p proc np left true ≡ kids r
    → r ≡ true
unfolding wait_scan
wait_scan-sticky p proc np zero r h = ground arith
wait_scan-sticky p proc np (suc left) r h = wait_scan-sticky p proc (np + 1) left r (ground arith)

pub wait_scan-kids :
    (p : ℕ) (proc : ℕ → Proc) (np left : ℕ) (havekids r : Bool)
    → wait_scan p proc np left havekids ≡ kids r
    → (j : ℕ) → np ≤ j
    → j < np + left
    → (proc j).parent ≡ some p
    → (value (proc j).state ≢ 4) × (r ≡ true)
unfolding wait_scan
wait_scan-kids p proc np zero havekids r h j lo hi child = absurd (omega arith)
wait_scan-kids p proc np (suc left) havekids r h j lo hi child = elim (Bool-cases (np == j)) [
  | inl here ↦
      let e : np ≡ j = ground arith in
      let mine : (proc np).parent ≡ some p = rw e child in
      let found : child_of p (proc np).parent ≡ true = rw mine (==_refl p) in
      let alive : in_state zombie (proc np) ≡ false = ground arith in
      let seen : (havekids || child_of p (proc np).parent) ≡ true = rw found (or_true havekids) in
      let next : wait_scan p proc (np + 1) left (havekids || child_of p (proc np).parent) ≡ kids r =
        ground arith in
      (
        rw (← e) (ground arith),
        wait_scan-sticky p proc (np + 1) left r
            (ap (λ b. wait_scan p proc (np + 1) left b) (sym seen) ∙ next),
      )
  | inr later ↦
      wait_scan-kids p proc (np + 1) left (havekids || child_of p (proc np).parent) r (ground arith)
        j (ground arith) (omega arith) child
]

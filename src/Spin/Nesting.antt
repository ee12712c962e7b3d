-- ===== src/Spin/Nesting.antt =====
-- Locks taken inside each other, and the interrupts.
use mp.Prelude.{
  ℕ, ◌-◌, ◌<◌, ◌≡◌, ◌≢◌, refl, true, false, ◌&&◌, ◌==◌, if◌then◌else◌, none, some, List, [], ◌∷◌,
  All, Distinct, Outcome, ok, ◌>>=◌, arith,
}
use mp.Prelude.Update.{update}
use mp.Spin.{Spinlock, Machine, holding, push_off, pop_off, acquire, release}

-- Each lock is taken inside the ones before it, and given back after the ones inside it.
unfoldable pub nest : List ℕ → Machine → Outcome Machine
nest [] s = ok s
nest (lk ∷ r) s = acquire lk s >>= λ s1. nest r s1 >>= λ s2. release lk s2

abbrev pub open_lock : Spinlock
open_lock = record { locked = false; cpu = none }

-- The machine is as it was; `intena` counts only below a `push_off`.
pub record IsKept (s s' : Machine) : Type 0 where
  pub lock : (i : ℕ) → s'.lock i ≡ s.lock i
  pub noff : s'.noff ≡ s.noff
  pub intr : s'.intr ≡ s.intr
  pub me : s'.me ≡ s.me
  pub intena : 0 < s.noff → s'.intena ≡ s.intena

taken : ℕ → Machine → Machine
taken lk s = record (push_off s) {
  lock = update s.lock lk (record { locked = true; cpu = some s.me });
}

acquire_open : (lk : ℕ) (s : Machine) → s.lock lk ≡ open_lock → acquire lk s ≡ ok (taken lk s)
unfolding acquire taken push_off holding
acquire_open lk s e = ground (arith, e)

-- The lock is given back in a machine that is as it was when the lock had been taken.
release_taken :
    (lk : ℕ) (s u : Machine)
    → s.lock lk ≡ open_lock
    → (0 < s.noff → s.intr ≡ false)
    → IsKept (taken lk s) u
    → (s' : Machine) × (release lk u ≡ ok s') × IsKept s s'
unfolding release taken push_off holding pop_off
release_taken lk s u e off k =
    let l = k.lock lk in
    let n = k.noff in
    let m = k.me in
    let q = k.intr in
    let a : u.intena ≡ (if s.noff == 0 then s.intr else s.intena) = k.intena (omega arith) in
    let held : holding lk u ≡ true = ground (arith, l, m) in
    (
      record u {
        lock = update u.lock lk open_lock;
        noff = u.noff - 1;
        intr = (u.noff - 1 == 0) && u.intena;
      },
      ground (arith, held, n, q),
      record {
        lock = λ i. ground (arith, k.lock i, e);
        noff = omega (arith, n);
        intr = ground (arith, n, a, off);
        me = m;
        intena = λ h. ground (arith, a);
      },
    )

opens_others :
    (lk : ℕ) (s : Machine) (r : List ℕ)
    → All (λ y. lk ≢ y) r
    → All (λ i. s.lock i ≡ open_lock) r
    → All (λ i. (taken lk s).lock i ≡ open_lock) r
unfolding taken
opens_others lk s [] away o = tt
opens_others lk s (i ∷ r) (ne, away) (e, o) = (ground arith, opens_others lk s r away o)

nest_step :
    (lk : ℕ) (r : List ℕ) (s t u v : Machine)
    → acquire lk s ≡ ok t
    → nest r t ≡ ok u
    → release lk u ≡ ok v
    → nest (lk ∷ r) s ≡ ok v
unfolding nest ◌>>=◌
nest_step lk r s t u v a b c = rw (a, b, c)

-- Different locks that are open can be taken inside each other and given back without a panic: at
-- the end every lock is open again, and interrupts are on if they were on before the first.
pub nest-IsKept :
    (l : List ℕ) (s : Machine)
    → Distinct l
    → All (λ i. s.lock i ≡ open_lock) l
    → (0 < s.noff → s.intr ≡ false)
    → (s' : Machine) × (nest l s ≡ ok s') × IsKept s s'
nest-IsKept [] s d o off = (
  s,
  unfold nest in refl,
  record { lock = λ i. refl; noff = refl; intr = refl; me = refl; intena = λ h. refl },
)
nest-IsKept (lk ∷ r) s (away, d) (e, o) off =
    let (u, run, k) =
      nest-IsKept r (taken lk s) d (opens_others lk s r away o)
        (λ h. (unfold taken push_off in refl)) in
    let (s', back, kept) = release_taken lk s u e off k in
    (s', nest_step lk r s (taken lk s) u s' (acquire_open lk s e) run back, kept)

-- ===== src/Spin.antt =====
-- kernel/spinlock.c on one CPU. The other CPUs appear as the holders of locks.
pub mod Nesting
mod Tests
use mp.Prelude.{
  ℕ, ◌+◌, ◌-◌, Bool, true, false, not, ◌&&◌, ◌==◌, ltb, if◌then◌else◌, Option, none, some, List, [],
  ◌∷◌, Outcome, ok, panic, asleep, ◌>>=◌,
}
use mp.Prelude.Update.{update}

-- `struct spinlock`
pub record Spinlock : Type 0 where
  pub locked : Bool
  pub cpu : Option ℕ

-- The locks, with `noff` and `intena` of this CPU, its number, and whether its interrupts are on.
pub record Machine : Type 0 where
  pub lock : ℕ → Spinlock
  pub noff : ℕ
  pub intena : Bool
  pub intr : Bool
  pub me : ℕ

unfoldable pub holding : ℕ → Machine → Bool
holding lk s = elim (s.lock lk).cpu [ none ↦ false | some c ↦ (s.lock lk).locked && (c == s.me) ]

unfoldable pub push_off : Machine → Machine
push_off s = record s {
  intr = false;
  intena = if s.noff == 0 then s.intr else s.intena;
  noff = s.noff + 1;
}

unfoldable pub pop_off : Machine → Outcome Machine
pop_off s =
    if s.intr
    then panic
    else if ltb s.noff 1
    then panic
    else ok (record s { noff = s.noff - 1; intr = (s.noff - 1 == 0) && s.intena })

-- A lock that is taken makes the CPU spin, `asleep`.
unfoldable pub acquire : ℕ → Machine → Outcome Machine
acquire lk s =
    let s1 = push_off s in
    if holding lk s1
    then panic
    else if (s1.lock lk).locked
    then asleep
    else ok (record s1 { lock = update s1.lock lk (record { locked = true; cpu = some s1.me }) })

unfoldable pub release : ℕ → Machine → Outcome Machine
release lk s =
    if not (holding lk s)
    then panic
    else pop_off (record s { lock = update s.lock lk (record { locked = false; cpu = none }) })

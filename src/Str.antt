-- ===== src/Str.antt =====
-- kernel/string.c over memory as a function from addresses to bytes. `char` is unsigned on RISC-V.
pub mod Move
pub mod Names
mod Tests
use mp.Prelude.{
  ℕ, zero, suc, ◌+◌, ◌-◌, ◌%◌, Bool, true, false, not, ◌&&◌, ◌||◌, ◌==◌, ltb, leb, if◌then◌else◌,
}
use mp.Prelude.Int.{ℤ, pos, sub_int}
use mp.Prelude.Update.{update}

abbrev pub Memory : Type 0
Memory = ℕ → ℕ

unfoldable pub memset : ℕ → ℕ → ℕ → Memory → Memory
memset dst c zero m = m
memset dst c (suc n) m = memset (dst + 1) c n (update m dst (c % 256))

unfoldable pub memcmp : ℕ → ℕ → ℕ → Memory → ℤ
memcmp s1 s2 zero m = pos 0
memcmp s1 s2 (suc n) m =
    let rest = memcmp (s1 + 1) (s2 + 1) n m in
    if not (m s1 == m s2) then sub_int (m s1) (m s2) else rest

-- The two loops of `memmove`. In the first one the pointers are past the bytes that are left.
unfoldable pub move_down : ℕ → ℕ → ℕ → Memory → Memory
move_down d s zero m = m
move_down d s (suc n) m = move_down (d - 1) (s - 1) n (update m (d - 1) (m (s - 1)))

unfoldable pub move_up : ℕ → ℕ → ℕ → Memory → Memory
move_up d s zero m = m
move_up d s (suc n) m = move_up (d + 1) (s + 1) n (update m d (m s))

unfoldable pub memmove : ℕ → ℕ → ℕ → Memory → Memory
memmove dst src n m =
    if ltb src dst && ltb dst (src + n)
    then move_down (dst + n) (src + n) n m
    else move_up dst src n m

-- `memcpy exists to placate GCC`
unfoldable pub memcpy : ℕ → ℕ → ℕ → Memory → Memory
memcpy dst src n m = memmove dst src n m

unfoldable pub strncmp : ℕ → ℕ → ℕ → Memory → ℤ
strncmp p q zero m = pos 0
strncmp p q (suc n) m =
    let rest = strncmp (p + 1) (q + 1) n m in
    if not (m p == 0) && m p == m q then rest else sub_int (m p) (m q)

-- The second loop of `strncpy`.
unfoldable pub pad : ℕ → ℕ → Memory → Memory
pad s zero m = m
pad s (suc n) m = pad (s + 1) n (update m s 0)

unfoldable pub strncpy : ℕ → ℕ → ℕ → Memory → Memory
strncpy s t zero m = m
strncpy s t (suc n) m =
    let m' = update m s (m t) in
    let rest = strncpy (s + 1) (t + 1) n m' in
    let padded = pad (s + 1) n m' in if not (m t == 0) then rest else padded

-- The loop of `safestrcpy` and the `*s = 0` after it; the count is `n` after its decrement.
unfoldable pub safe_copy : ℕ → ℕ → ℕ → Memory → Memory
safe_copy s t zero m = update m s 0
safe_copy s t (suc n) m =
    let m' = update m s (m t) in
    let rest = safe_copy (s + 1) (t + 1) n m' in
    if not (m t == 0) then rest else update m' (s + 1) 0

unfoldable pub safestrcpy : ℕ → ℕ → ℕ → Memory → Memory
safestrcpy s t zero m = m
safestrcpy s t (suc n) m = safe_copy s t n m

-- The loop of `strlen`, on fuel.
unfoldable pub strlen_from : ℕ → ℕ → ℕ → Memory → ℕ
strlen_from s n zero m = n
strlen_from s n (suc fuel) m =
    let rest = strlen_from s (n + 1) fuel m in if m (s + n) == 0 then n else rest

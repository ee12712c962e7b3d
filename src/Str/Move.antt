-- ===== src/Str/Move.antt =====
-- `memmove` and `memset` as single assignments.
use mp.Prelude.{ℕ, zero, suc, ◌+◌, ◌-◌, ◌%◌, ◌≤◌, ◌≡◌, false, ◌&&◌, ltb, leb, if◌then◌else◌, arith}
use mp.Prelude.Update.{update}
use mp.Str.{Memory, memset, move_down, move_up, memmove}

-- `n` bytes from `src` on, as they were, at `dst`.
abbrev pub moved : ℕ → ℕ → ℕ → Memory → Memory
moved dst src n m j = if leb dst j && ltb j (dst + n) then m (src + (j - dst)) else m j

move_up-eq :
    (d s n : ℕ) (m : Memory) (j : ℕ)
    → (ltb s d && ltb d (s + n)) ≡ false
    → move_up d s n m j ≡ moved d s n m j
unfolding move_up
move_up-eq d s zero m j h = ground arith
move_up-eq d s (suc n) m j h = ground (arith, move_up-eq (d + 1) (s + 1) n (update m d (m s)) j)

move_down-eq :
    (d s n : ℕ) (m : Memory) (j : ℕ) → s ≤ d → move_down (d + n) (s + n) n m j ≡ moved d s n m j
unfolding move_down
move_down-eq d s zero m j h = ground arith
move_down-eq d s (suc n) m j h =
    let ed : d + suc n - 1 ≡ d + n = omega arith in
    let es : s + suc n - 1 ≡ s + n = omega arith in
    rw (ed, es) (ground (arith, move_down-eq d s n (update m (d + n) (m (s + n))) j h))

-- `memmove` is one assignment of `n` bytes, also where the two ranges overlap: each byte of the
-- destination gets what the source held before the call, and the rest of memory stays.
pub memmove_lem :
    (dst src n : ℕ) (m : Memory) (j : ℕ)
    → memmove dst src n m j ≡ (if leb dst j && ltb j (dst + n) then m (src + (j - dst)) else m j)
unfolding memmove
memmove_lem dst src n m j = ground (arith, move_up-eq dst src n m j, move_down-eq dst src n m j)

-- `memset` stores the low byte of `c` at the `n` bytes from `dst` on, and nowhere else.
pub memset_lem :
    (dst c n : ℕ) (m : Memory) (j : ℕ)
    → memset dst c n m j ≡ (if leb dst j && ltb j (dst + n) then c % 256 else m j)
unfolding memset
memset_lem dst c zero m j = ground arith
memset_lem dst c (suc n) m j = ground (arith, memset_lem (dst + 1) c n (update m dst (c % 256)) j)

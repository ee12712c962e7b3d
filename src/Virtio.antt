-- ===== src/Virtio.antt =====
-- The descriptors of kernel/virtio_disk.c: `alloc_desc`, `free_desc`, `free_chain`, `alloc3_desc`, and
-- the chain that `virtio_disk_rw` makes of them. The device and the interrupt are not modelled.
pub mod Descriptors
pub mod Request
mod Tests
use mp.Prelude.{
  ℕ, zero, suc, ◌+◌, ◌%◌, Bool, true, false, not, ◌||◌, ◌==◌, leb, if◌then◌else◌, Option, none,
  some, Outcome, ok, panic, asleep, ◌>>=◌,
}
use mp.Prelude.Update.{update}
use mp.Param.{bsize}

-- `NUM` of kernel/virtio.h
abbrev pub num : ℕ
num = 8

-- `VRING_DESC_F_NEXT`, and `VRING_DESC_F_WRITE`: the device writes.
abbrev pub f_next : ℕ
f_next = 1

abbrev pub f_write : ℕ
f_write = 2

-- `struct VRingDesc`
pub record VringDesc : Type 0 where
  pub addr : ℕ
  pub len : ℕ
  pub flags : ℕ
  pub next : ℕ

-- `disk.free` and `disk.desc`
pub record Ring : Type 0 where
  pub free : ℕ → Bool
  pub desc : ℕ → VringDesc

abbrev pub set_free : ℕ → Bool → Ring → Ring
set_free i b q = record q { free = update q.free i b }

abbrev pub set_desc : ℕ → VringDesc → Ring → Ring
set_desc i x q = record q { desc = update q.desc i x }

-- The scan of `alloc_desc` from `i` on.
unfoldable pub find_desc : (ℕ → Bool) → ℕ → ℕ → Option ℕ
find_desc free i zero = none
find_desc free i (suc left) =
    let rest = find_desc free (i + 1) left in if free i then some i else rest

unfoldable pub alloc_desc : Ring → Option ℕ × Ring
alloc_desc q = elim (find_desc q.free 0 num) [
  | none ↦ (none, q)
  | some i ↦ (some i, set_free i false q)
]

unfoldable pub free_desc : ℕ → Ring → Outcome Ring
free_desc i q =
    if leb num i
    then panic
    else if q.free i
    then panic
    else ok (set_free i true (set_desc i (record (q.desc i) { addr = 0 }) q))

-- `free_chain` on fuel: it runs out as `asleep`, where the code goes round for ever.
unfoldable pub free_chain : ℕ → ℕ → Ring → Outcome Ring
free_chain zero i q = asleep
free_chain (suc fuel) i q = free_desc i q >>= λ q'. elim ((q'.desc i).flags % 2 == f_next) [
  | true ↦ free_chain fuel (q'.desc i).next q'
  | false ↦ ok q'
]

-- The third descriptor of `alloc3_desc`, and the second.
unfoldable pub alloc_third : ℕ → ℕ → Ring → Outcome (Option (ℕ × ℕ × ℕ) × Ring)
alloc_third a b q =
    let (c, q') = alloc_desc q in
    elim c [
      | none ↦ free_desc a q' >>= λ q1. free_desc b q1 >>= λ q2. ok (none, q2)
      | some c' ↦ ok (some (a, b, c'), q')
    ]

unfoldable pub alloc_second : ℕ → Ring → Outcome (Option (ℕ × ℕ × ℕ) × Ring)
alloc_second a q =
    let (b, q') = alloc_desc q in
    elim b [ none ↦ free_desc a q' >>= λ q1. ok (none, q1) | some b' ↦ alloc_third a b' q' ]

unfoldable pub alloc3_desc : Ring → Outcome (Option (ℕ × ℕ × ℕ) × Ring)
alloc3_desc q =
    let (a, q') = alloc_desc q in elim a [ none ↦ ok (none, q') | some a' ↦ alloc_second a' q' ]

-- The three descriptors of a request: the header at `header`, the data at `data'` and the status byte
-- at `status`.
unfoldable pub format : Bool → ℕ → ℕ → ℕ → ℕ → ℕ → ℕ → Ring → Ring
format write header data' status a b c q =
    set_desc c (record { addr = status; len = 1; flags = f_write; next = 0 })
      (set_desc b
        (record {
          addr = data';
          len = bsize;
          flags = (if write then 0 else f_write) + f_next;
          next = c;
        })
        (set_desc a (record { addr = header; len = 16; flags = f_next; next = b }) q))

-- `virtio_disk_rw` on the descriptors, where no other request comes between: `none` where it sleeps
-- for want of descriptors.
unfoldable pub request : Bool → ℕ → ℕ → ℕ → Ring → Outcome (Option (ℕ × ℕ × ℕ) × Ring)
request write header data' status q = alloc3_desc q >>= λ (idx, q'). elim idx [
  | none ↦ ok (none, q')
  | some (a, b, c) ↦ free_chain num a (format write header data' status a b c q') >>= λ q''.
      ok (some (a, b, c), q'')
]

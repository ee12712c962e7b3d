-- ===== src/Hooks.antt =====
-- The test interface of the mirrored disk: the system calls of kernel/sysproc.c that set the hooks,
-- and `sys_raw_read` and `sys_raw_write` of kernel/sysfile.c, that go to a physical block.
pub mod Force
pub mod Raw
mod Tests
use mp.Prelude.{
  ℕ, ◌-◌, ◌^◌, ◌*◌, Bool, true, false, ◌||◌, if◌then◌else◌, Option, none, some, Outcome, ok, ◌>>=◌,
}
use mp.Prelude.Int.{ℤ, pos, negsuc, minus_one, ltz}
use mp.Param.{logical_disk_size, fs_size, root_dev}
use mp.Bio.{Bcache, Block, bget, brelse, disk_rw, set_buf}

unfoldable pub sys_force_fail : ℤ → Bcache → ℤ × Bcache
sys_force_fail pbn s =
    if ltz pbn (pos logical_disk_size)
    then (if ltz pbn minus_one
        then (minus_one, s)
        else (pos 0, record s { force_read_error_pbn = pbn }))
    else (minus_one, s)

-- The `int` as a `uint64`.
unfoldable pub sys_get_force_fail : Bcache → ℕ
sys_get_force_fail s = elim s.force_read_error_pbn [ pos n ↦ n | negsuc n ↦ 2 ^ 64 - 1 - n ]

unfoldable pub sys_force_disk_fail : ℤ → Bcache → ℤ × Bcache
sys_force_disk_fail disk_id s =
    if ltz disk_id minus_one || ltz (pos 1) disk_id
    then (minus_one, s)
    else (pos 0, record s { force_disk_fail_id = disk_id })

-- `pbn < 0 || pbn >= FSSIZE`
abbrev pub bad_pbn : ℤ → Bool
bad_pbn pbn = if ltz pbn (pos 0) then true else if ltz pbn (pos fs_size) then false else true

abbrev pub block_of : ℤ → ℕ
block_of (pos n) = n
block_of (negsuc n) = 0

-- The result, and the bytes that `copyout` gets; `copied` says whether it succeeds.
unfoldable pub sys_raw_read : ℤ → Bool → Bcache → Outcome (ℤ × Option Block × Bcache)
sys_raw_read pbn copied s =
    let read = do
      (b, s1) ← bget root_dev (block_of pbn) s
      let s2 = disk_rw b false s1
      s3 ← brelse b s2
      ok (if copied then pos 0 else minus_one, some (s2.bufs b).bytes, s3)
    in if bad_pbn pbn then ok (minus_one, none, s) else read

-- `copyin` turns the contents of the buffer into others, and fails or not.
unfoldable pub sys_raw_write : ℤ → (Block → Block) → Bool → Bcache → Outcome (ℤ × Bcache)
sys_raw_write pbn copyin copied s =
    let write = do
      (b, s1) ← bget root_dev (block_of pbn) s
      let bytes = copyin (s1.bufs b).bytes
      let filled = set_buf b (record (s1.bufs b) { bytes = bytes; valid = true }) s1
      let failed = set_buf b (record (s1.bufs b) { bytes = bytes }) s1
      s2 ← brelse b (if copied then disk_rw b true filled else failed)
      ok (if copied then pos 0 else minus_one, s2)
    in if bad_pbn pbn then ok (minus_one, s) else write

-- ===== src/Hooks/Force.antt =====
-- What the simulated failures do, once a system call has set them.
use mp.Prelude.{ℕ, ◌<◌, ◌≤◌, ◌≡◌, true, false, ◌==◌, arith}
use mp.Prelude.Int.{pos, negsuc, minus_one}
use mp.Param.{logical_disk_size}
use mp.Bio.{Bcache, use_fallback, block_fails, disk_fails}
use mp.Hooks.{sys_force_fail, sys_get_force_fail, sys_force_disk_fail}

-- `sys_force_fail` accepts the blocks of disk 0: after it, while no disk is failed, reads and writes
-- of that block, and of no other, go by the mirror, and `sys_get_force_fail` tells the block. It
-- accepts -1, after which no block of disk 0 fails, and refuses every other number, with no effect.
pub force_fail_lem :
    (s : Bcache)
    → disk_fails s.force_disk_fail_id 0 ≡ false
    → ((n : ℕ)
        → n < logical_disk_size
        → ((sys_force_fail (pos n) s).0 ≡ pos 0)
          × (sys_get_force_fail (sys_force_fail (pos n) s).1 ≡ n)
          × ((m : ℕ)
              → m < logical_disk_size
              → use_fallback (sys_force_fail (pos n) s).1 m ≡ (n == m)))
      × ((n : ℕ) → logical_disk_size ≤ n → sys_force_fail (pos n) s ≡ (minus_one, s))
      × ((n : ℕ) → 0 < n → sys_force_fail (negsuc n) s ≡ (minus_one, s))
      × ((sys_force_fail minus_one s).0 ≡ pos 0)
      × ((m : ℕ) → m < logical_disk_size → use_fallback (sys_force_fail minus_one s).1 m ≡ false)
unfolding sys_force_fail sys_get_force_fail block_fails disk_fails
force_fail_lem s fine = (
  (λ n lt. (ground arith, ground arith, λ m lm. ground arith)),
  (λ n ge. ground arith),
  (λ n gt. ground arith),
  ground arith,
  (λ m lm. ground arith),
)

-- `sys_force_disk_fail` accepts 0, 1 and -1: after 0 every block of disk 0 is skipped and disk 1 is
-- not, after 1 disk 1 is skipped, and after -1 neither is. It refuses every other number.
pub force_disk_fail_lem :
    (s : Bcache)
    → ((sys_force_disk_fail (pos 0) s).0 ≡ pos 0)
      × ((m : ℕ) → use_fallback (sys_force_disk_fail (pos 0) s).1 m ≡ true)
      × (disk_fails (sys_force_disk_fail (pos 0) s).1.force_disk_fail_id 1 ≡ false)
      × ((sys_force_disk_fail (pos 1) s).0 ≡ pos 0)
      × (disk_fails (sys_force_disk_fail (pos 1) s).1.force_disk_fail_id 1 ≡ true)
      × ((m : ℕ)
          → use_fallback (sys_force_disk_fail (pos 1) s).1 m ≡ block_fails s.force_read_error_pbn m)
      × ((sys_force_disk_fail minus_one s).0 ≡ pos 0)
      × (disk_fails (sys_force_disk_fail minus_one s).1.force_disk_fail_id 1 ≡ false)
      × ((m : ℕ)
          → use_fallback (sys_force_disk_fail minus_one s).1 m
            ≡ block_fails s.force_read_error_pbn m)
      × ((n : ℕ) → 1 < n → sys_force_disk_fail (pos n) s ≡ (minus_one, s))
      × ((n : ℕ) → 0 < n → sys_force_disk_fail (negsuc n) s ≡ (minus_one, s))
unfolding sys_force_disk_fail disk_fails
force_disk_fail_lem s = (
  ground arith,
  (λ m. ground arith),
  ground arith,
  ground arith,
  ground arith,
  (λ m. ground arith),
  ground arith,
  ground arith,
  (λ m. ground arith),
  (λ n gt. ground arith),
  (λ n gt. ground arith),
)

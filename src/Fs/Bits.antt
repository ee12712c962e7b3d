-- ===== src/Fs/Bits.antt =====
-- Setting and clearing one bit of a byte.
use mp.Prelude.{ℕ, zero, suc, ◌+◌, ◌-◌, ◌*◌, ◌/◌, ◌≤◌, ◌≡◌, true, false, ◌==◌, if◌then◌else◌, arith}
use mp.Fs.{mask, test, with_bit, without_bit}

test-set :
    (x k j : ℕ) → test x k ≡ false → test (x + mask k) j ≡ (if j == k then true else test x j)
unfolding test mask
test-set x zero zero h = ground arith
test-set x zero (suc j) h = let e : (x + 1) / 2 ≡ x / 2 = ground arith in rw e (ground arith)
test-set x (suc k) zero h = ground arith
test-set x (suc k) (suc j) h =
    let e : (x + 2 * mask k) / 2 ≡ x / 2 + mask k = omega arith in
    let ih = test-set (x / 2) k j h in rw e (ground (arith, ih))

test-mask : (x k : ℕ) → test x k ≡ true → mask k ≤ x
unfolding test mask
test-mask x zero h = ground arith
test-mask x (suc k) h = let ih = test-mask (x / 2) k h in omega (arith, ih)

test-clear :
    (x k j : ℕ) → test x k ≡ true → test (x - mask k) j ≡ (if j == k then false else test x j)
unfolding test mask
test-clear x zero zero h = ground arith
test-clear x zero (suc j) h = let e : (x - 1) / 2 ≡ x / 2 = ground arith in rw e (ground arith)
test-clear x (suc k) zero h = let low = test-mask (x / 2) k h in ground (arith, low)
test-clear x (suc k) (suc j) h =
    let e : (x - 2 * mask k) / 2 ≡ x / 2 - mask k = omega arith in
    let ih = test-clear (x / 2) k j h in rw e (ground (arith, ih))

pub test-with_bit : (x k j : ℕ) → test (with_bit x k) j ≡ (if j == k then true else test x j)
test-with_bit x k j = ground (arith, test-set x k j)

pub test-without_bit : (x k j : ℕ) → test (without_bit x k) j ≡ (if j == k then false else test x j)
test-without_bit x k j = ground (arith, test-clear x k j)

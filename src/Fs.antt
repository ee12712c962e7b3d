-- ===== src/Fs.antt =====
-- kernel/fs.c over the blocks of the disk as a transaction sees them: `bread` gives the contents of a
-- block, and a change of a buffer with `log_write` and `brelse` gives the block new contents.
pub mod Bits
pub mod Bitmap
pub mod Content
pub mod StoreCore
pub mod Dinode
pub mod Trans
pub mod LogRoom
pub mod ReadWrite
pub mod Layout
pub mod Extend
pub mod Room
pub mod Gets
pub mod Bmap
pub mod LogRound
pub mod ByteAt
pub mod Write
pub mod Writei
pub mod Read
mod Tests
pub mod FileTests
use mp.Prelude.{
  ℕ, zero, suc, ◌+◌, ◌-◌, ◌*◌, ◌/◌, ◌%◌, min, Bool, true, false, ◌==◌, if◌then◌else◌, Option, none,
  some, Outcome, ok, panic,
}
use mp.Prelude.Update.{update}
use mp.Param.{bsize}
use mp.Words.{Bytes}

-- `struct superblock`, but for `magic`
pub record Superblock : Type 0 where
  pub size : ℕ
  pub nblocks : ℕ
  pub ninodes : ℕ
  pub nlog : ℕ
  pub logstart : ℕ
  pub inodestart : ℕ
  pub bmapstart : ℕ

-- The contents of each block.
abbrev pub Disk : Type 0
Disk = ℕ → Bytes

-- `BPB` and `BBLOCK`
abbrev pub bpb : ℕ
bpb = bsize * 8

abbrev pub bblock : ℕ → Superblock → ℕ
bblock b sb = b / bpb + sb.bmapstart

unfoldable pub bzero : ℕ → Disk → Disk
bzero bno d = update d bno (λ _. 0)

-- `1 << k`
unfoldable pub mask : ℕ → ℕ
mask zero = 1
mask (suc k) = 2 * mask k

-- `(x & (1 << k)) != 0`
unfoldable pub test : ℕ → ℕ → Bool
test x zero = x % 2 == 1
test x (suc k) = test (x / 2) k

-- `x | (1 << k)` and `x & ~(1 << k)`
abbrev pub with_bit : ℕ → ℕ → ℕ
with_bit x k = if test x k then x else x + mask k

abbrev pub without_bit : ℕ → ℕ → ℕ
without_bit x k = if test x k then x - mask k else x

-- The bit `bi` of a bitmap block.
abbrev pub bit : Bytes → ℕ → Bool
bit data' bi = test (data' (bi / 8)) (bi % 8)

-- The inner loop of `balloc` from `bi` on: the first clear bit.
unfoldable pub find_clear : Bytes → ℕ → ℕ → Option ℕ
find_clear data' bi zero = none
find_clear data' bi (suc left) =
    let rest = find_clear data' (bi + 1) left in if bit data' bi then rest else some bi

-- The outer loop of `balloc` from `b` on.
unfoldable pub balloc_from : Superblock → ℕ → ℕ → Disk → Outcome (ℕ × Disk)
balloc_from sb b zero d = panic
balloc_from sb b (suc rounds) d =
    let bp = d (bblock b sb) in
    elim (find_clear bp 0 (min bpb (sb.size - b))) [
      | none ↦ balloc_from sb (b + bpb) rounds d
      | some bi ↦
          let bp' = update bp (bi / 8) (with_bit (bp (bi / 8)) (bi % 8)) in
          ok (b + bi, bzero (b + bi) (update d (bblock b sb) bp'))
    ]

unfoldable pub balloc : Superblock → Disk → Outcome (ℕ × Disk)
balloc sb d = balloc_from sb 0 ((sb.size + (bpb - 1)) / bpb) d

unfoldable pub bfree : Superblock → ℕ → Disk → Outcome Disk
bfree sb b d =
    let bp = d (bblock b sb) in
    let bi = b % bpb in
    if test (bp (bi / 8)) (bi % 8)
    then ok (update d (bblock b sb) (update bp (bi / 8) (without_bit (bp (bi / 8)) (bi % 8))))
    else panic

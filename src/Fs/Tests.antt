-- ===== src/Fs/Tests.antt =====
-- The free map of kernel/fs.c at concrete inputs: tests of the model, and the theorems applied.
use mp.Prelude.{ℕ, ◌/◌, ◌<◌, ◌≡◌, ◌⊎◌, ◌==◌, refl, true, false, if◌then◌else◌, ok, panic, arith}
use mp.Fs.{Superblock, Disk, bpb, balloc, bfree, test}
use mp.Fs.Bitmap.{used, IsLaidOut, IsAllocated, balloc_lem}

-- Sixteen blocks with the map in block 5; the blocks 0 to 9 are in use.
abbrev small : Superblock
small = record {
  size = 16;
  nblocks = 6;
  ninodes = 8;
  nlog = 2;
  logstart = 2;
  inodestart = 4;
  bmapstart = 5;
}

abbrev disk : Disk
disk n o = if n == 5 then (if o == 0 then 255 else if o == 1 then 3 else 0) else 7

takes_block_10 :
    (used small disk 9 ≡ true) × (used small disk 10 ≡ false) × (bfree small 11 disk ≡ panic)
unfolding test bfree
takes_block_10 = (refl, refl, refl)

map_in_use : IsLaidOut small disk
unfolding test
map_in_use n lt = let e : n / bpb ≡ 0 = omega arith in rw e

balloc_lem_example :
    ((balloc small disk ≡ panic) × ((m : ℕ) → m < 16 → used small disk m ≡ true))
    ⊎ ((n : ℕ) × (d' : Disk) × (balloc small disk ≡ ok (n, d')) × IsAllocated small disk n d')
balloc_lem_example = balloc_lem small disk map_in_use

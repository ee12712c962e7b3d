-- ===== src/Fs/FileTests.antt =====
-- The contents of files of kernel/fs.c at concrete inputs: tests of the model, and the theorems applied.
use mp.Prelude.{ℕ, zero, suc, ◌+◌, ◌%◌, ◌<◌, ◌≡◌, refl, ◌≢◌, true, [], ◌∷◌, arith, ok, panic, ◌>>=◌}
use mp.Prelude.Int.{pos, minus_one}
use mp.Prelude.Update.{update}
use mp.Str.{Memory}
use mp.Fs.{Superblock, Disk, bblock, bzero, mask, test, find_clear, balloc_from, balloc}
use mp.Fs.Bitmap.{used}
use mp.Fs.Content.{File, iupdate, load_core, bmap_direct, bmap}
use mp.Fs.Dinode.{SameFields, load_core-iupdate}
use mp.Fs.ReadWrite.{kernel_out, kernel_in, readi, writei}
use mp.Fs.Layout.{IsFile}
use mp.Fs.Room.{HasRoom}
use mp.Fs.Bmap.{bmap_lem}
use mp.Fs.Gets.{Gets}
use mp.Fs.Trans.{Trans, log_block, in_log}
use mp.Fs.Write.{kernel_in-Delivers}
use mp.Fs.Writei.{Writes, writei_lem}
use mp.Fs.Read.{readi-writei}

-- A disk of 100 blocks: the inodes in block 2, the map in block 3, and blocks 0 to 5 in use.
abbrev pub disk_sb : Superblock
disk_sb = record {
  size = 100;
  nblocks = 94;
  ninodes = 16;
  nlog = 0;
  logstart = 2;
  inodestart = 2;
  bmapstart = 3;
}

abbrev pub fresh_disk : Disk
fresh_disk = update (λ _ _. 0) 3 (update (λ _. 0) 0 0x3f)

abbrev pub empty_file : File
empty_file = record {
  ip = record {
    dev = 1;
    inum = 5;
    type = 2;
    major = 0;
    mode = 3;
    nlink = 1;
    size = 0;
    addrs = λ _. 0;
  };
  disk = fresh_disk;
}

pub no_role : ℕ → ℕ
no_role n = 0

pub in_use : (n : ℕ) → n < 6 → used disk_sb fresh_disk n ≡ true
unfolding test
in_use zero h = refl
in_use (suc zero) h = refl
in_use (suc (suc zero)) h = refl
in_use (suc (suc (suc zero))) h = refl
in_use (suc (suc (suc (suc zero)))) h = refl
in_use (suc (suc (suc (suc (suc zero))))) h = refl
in_use (suc (suc (suc (suc (suc (suc n)))))) h = absurd (omega arith)

pub map_block : (n : ℕ) → n < 100 → bblock n disk_sb ≡ 3
map_block n h = omega arith

pub empty-IsFile : IsFile disk_sb no_role empty_file
unfolding no_role
empty-IsFile = record {
  placed = record {
    small = omega arith;
    laid = λ n hn. rw (map_block n hn) (in_use 3 (omega arith));
    inside = λ n hn. omega (arith, map_block n hn);
    boot = in_use 0 (omega arith);
    zero_role = refl;
    taken = λ b ne. absurd (ne refl);
    no_map = λ n hn. refl;
    no_inode = refl;
    inode_apart = λ n hn e. omega (arith, map_block n hn, e);
    inode_taken = (omega arith, in_use 2 (omega arith));
  };
  direct = λ bn h ne. absurd (ne refl);
  indirect = λ ne. absurd (ne refl);
  data_blocks = λ k h ne. absurd (ne refl);
}

two_free : HasRoom disk_sb fresh_disk 2
unfolding test
two_free = record {
  blocks = 10 ∷ 11 ∷ [];
  distinct = ((omega arith, tt), (tt, tt));
  free = ((omega arith, refl), ((omega arith, refl), tt));
  enough = omega arith;
}

bmap_lem_example :
    (a : ℕ) × (f' : File) × (bmap disk_sb 12 empty_file ≡ ok (a, f'))
    × Gets disk_sb no_role empty_file 0 12 a f'
bmap_lem_example = bmap_lem disk_sb no_role empty_file 0 12 empty-IsFile (omega arith) two_free

abbrev pub text : Memory
text a = a % 256

-- The log of a transaction that has written nothing.
abbrev pub new_trans : Trans
new_trans = record { limit = 29; blocks = [] }

readi-writei_example :
    (f' : File) × (t' : Trans) × (m' : Memory) × (writei kernel_in disk_sb 0x70 0 5 empty_file
        new_trans text
      ≡ ok (pos 5, f', t'))
    × (readi kernel_out disk_sb 0x200 0 5 f' text ≡ ok (pos 5, f', m'))
    × ((j : ℕ) → j < 5 → m' (0x200 + j) ≡ text (0x70 + j))
readi-writei_example =
    readi-writei kernel_in text disk_sb no_role 0x70 0x200 0 5 1 empty_file new_trans text
      (kernel_in-Delivers text 0x70 0x75) empty-IsFile refl (λ x hx. absurd (omega arith))
      (omega arith) (omega arith) (omega arith) (omega arith) (omega arith) two_free
      (record { one_map = omega arith; space = omega arith })

writei_lem_example :
    (f' : File) × (t' : Trans) × (writei kernel_in disk_sb 0x70 0 5 empty_file new_trans text
      ≡ ok (pos 5, f', t'))
    × Writes disk_sb empty_file text 0x70 0 5 f'
writei_lem_example =
    writei_lem kernel_in text disk_sb no_role 0x70 0 5 1 empty_file new_trans text
      (kernel_in-Delivers text 0x70 0x75) empty-IsFile (omega arith) (omega arith) (omega arith)
      (omega arith) two_free (record { one_map = omega arith; space = omega arith })

load_core-iupdate_example :
    SameFields (load_core disk_sb 1 5 (iupdate disk_sb empty_file).disk) (empty_file.ip)
    × ((n : ℕ)
        → n ≢ 5
        → SameFields
            (load_core disk_sb 1 n (iupdate disk_sb empty_file).disk)
            (load_core disk_sb 1 n fresh_disk))
load_core-iupdate_example = load_core-iupdate disk_sb empty_file 1 (record {
  type = omega arith;
  major = omega arith;
  mode = omega arith;
  nlink = omega arith;
  size = omega arith;
  addrs = λ i hi. omega arith;
})

-- The block that `bmap` took, a write past the end, a `readi` past it, and a full log.
runs :
    ((elim (bmap disk_sb 0 empty_file) [ ok r ↦ r.0 | _ ↦ 0 ]) ≡ 6)
    × (writei kernel_in disk_sb 0x70 1 5 empty_file new_trans text
        ≡ ok (minus_one, empty_file, new_trans))
    × (readi kernel_out disk_sb 0x200 1 5 empty_file text ≡ ok (pos 0, empty_file, text))
    × (log_block 9 (record { limit = 1; blocks = 8 ∷ [] }) ≡ panic)
    × (log_block 9 (record { limit = 2; blocks = 9 ∷ [] })
        ≡ ok (record { limit = 2; blocks = 9 ∷ [] }))
unfolding bmap bmap_direct balloc balloc_from bzero find_clear test mask writei readi ◌>>=◌
    log_block in_log
runs = (refl, refl, refl, refl, refl)

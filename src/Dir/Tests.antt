-- ===== src/Dir/Tests.antt =====
-- Directories of kernel/fs.c at concrete inputs: tests of the model, and the theorems applied.
use mp.Prelude.{
  ℕ, zero, suc, ◌+◌, ◌-◌, ◌/◌, ◌<◌, ◌≡◌, refl, ap, subst, ◌≢◌, inl, inr, true, false, none, some,
  [], ◌∷◌, arith, ◌==◌, if◌then◌else◌, ==→eq, ==→ne, Bool-cases, ok,
}
use mp.Prelude.Int.{pos}
use mp.Prelude.Update.{update, update_ne}
use mp.Str.{Memory}
use mp.Fs.{Disk, test}
use mp.Fs.Bitmap.{used}
use mp.Fs.Content.{File}
use mp.Fs.Trans.{Trans}
use mp.Fs.Layout.{addr_at, IsFile}
use mp.Fs.Room.{HasRoom}
use mp.Fs.FileTests.{new_trans, disk_sb, map_block}
use mp.Inode.{Icache}
use mp.Dir.{name_size, dirlookup, dirlink}
use mp.Dir.Entries.{Name, same_chars, IsDirectory}
use mp.Dir.Lookup.{first_hit, lookup_in, HasName, SameOutside, looked_up, dirlookup_lem}
use mp.Dir.RoundTrip.{dirlookup-dirlink}

-- A directory with the entry `a` of the inode 7 in block 6.
abbrev dir_disk : Disk
dir_disk =
    update (update (λ _ _. 0) 3 (update (λ _. 0) 0 0x7f)) 6 (update (update (λ _. 0) 0 7) 2 97)

abbrev one_entry : File
one_entry = record {
  ip = record {
    dev = 1;
    inum = 5;
    type = 1;
    major = 0;
    mode = 3;
    nlink = 1;
    size = 16;
    addrs = update (λ _. 0) 0 6;
  };
  disk = dir_disk;
}

-- Block 6 is the first block of the file.
abbrev dir_role : ℕ → ℕ
dir_role = update (λ _. 0) 6 1

in_use : (n : ℕ) → n < 6 → used disk_sb dir_disk n ≡ true
unfolding test
in_use zero h = refl
in_use (suc zero) h = refl
in_use (suc (suc zero)) h = refl
in_use (suc (suc (suc zero))) h = refl
in_use (suc (suc (suc (suc zero)))) h = refl
in_use (suc (suc (suc (suc (suc zero))))) h = refl
in_use (suc (suc (suc (suc (suc (suc n)))))) h = absurd (omega arith)

six_used : used disk_sb dir_disk 6 ≡ true
unfolding test
six_used = refl

role_one : (b : ℕ) → dir_role b ≢ 0 → 6 ≡ b
role_one b ne = elim (Bool-cases (6 == b)) [
  | inl q ↦ ==→eq 6 b q
  | inr q ↦ absurd (ne (update_ne (λ _. 0) 6 b 1 (==→ne 6 b q)))
]

entry-IsFile : IsFile disk_sb dir_role one_entry
entry-IsFile = record {
  placed = record {
    small = omega arith;
    laid = λ n hn. rw (map_block n hn) (in_use 3 (omega arith));
    inside = λ n hn. omega (arith, map_block n hn);
    boot = in_use 0 (omega arith);
    zero_role = refl;
    taken = λ b ne.
        subst (λ x. (x < 100) × (used disk_sb dir_disk x ≡ true)) (role_one b ne)
          (omega arith, six_used);
    no_map = λ n hn. ap dir_role (map_block n hn);
    no_inode = refl;
    inode_apart = λ n hn e. omega (arith, map_block n hn, e);
    inode_taken = (omega arith, in_use 2 (omega arith));
  };
  direct = λ bn h ne. elim (Bool-cases (0 == bn)) [
    | inl q ↦
        let e : 0 ≡ bn = ==→eq 0 bn q in
        subst (λ x. dir_role (update (λ _. 0) 0 6 x) ≡ x + 1) e refl
    | inr q ↦ absurd (ne (update_ne (λ _. 0) 0 bn 6 (==→ne 0 bn q)))
  ];
  indirect = λ ne. absurd (ne refl);
  data_blocks = λ k h ne. absurd (ne refl);
}

entry-IsDirectory : IsDirectory one_entry 1
entry-IsDirectory = record {
  type = refl;
  size = refl;
  fits = omega arith;
  whole = λ x hx z.
      let q : x / 1024 ≡ 0 = omega arith in six_not_zero (subst (λ y. addr_at one_entry y ≡ 0) q z);
}
  where
    six_not_zero : addr_at one_entry 0 ≡ 0 → ⊥
    six_not_zero e = omega (arith, e)

abbrev two_entries : File
two_entries = record one_entry { ip = record (one_entry.ip) { size = 32 } }

two-IsDirectory : IsDirectory two_entries (2 + 0)
two-IsDirectory = record {
  type = refl;
  size = refl;
  fits = omega arith;
  whole = λ x hx z.
      let q : x / 1024 ≡ 0 = omega arith in
      six_not_zero (subst (λ y. addr_at two_entries y ≡ 0) q z);
}
  where
    six_not_zero : addr_at two_entries 0 ≡ 0 → ⊥
    six_not_zero e = omega (arith, e)

two_free : HasRoom disk_sb dir_disk 2
unfolding test
two_free = record {
  blocks = 10 ∷ 11 ∷ [];
  distinct = ((omega arith, tt), (tt, tt));
  free = ((omega arith, refl), ((omega arith, refl), tt));
  enough = omega arith;
}

-- The names `a` and `b`.
abbrev letter : ℕ → Name
letter x = update (λ _. 0) 0 x

abbrev with_name : ℕ → Memory
with_name x a = letter x (a - 0x100)

letter-HasName : (x : ℕ) → HasName (with_name x) 0x100 0x200 (letter x)
letter-HasName x = record {
  chars = λ i hi. let q : 0x100 + i - 0x100 ≡ i = omega arith in ap (letter x) q;
  apart = inl (omega arith);
}

abbrev no_inodes : Icache
no_inodes = record {
  inode = λ _. record {
    dev = 0;
    inum = 0;
    ref = pos 0;
    valid = false;
    locked = false;
    type = 0;
    mode = 0;
    nlink = 0;
  };
  dinode = λ _. record { type = 0; mode = 0; nlink = 0; entries = []; target = [] };
  cwd = 0;
}

dirlookup_lem_example :
    (m' : Memory) × (dirlookup disk_sb 0x100 0x200 one_entry (with_name 97) no_inodes
      ≡ looked_up (lookup_in one_entry 1 (letter 97)) 1 one_entry m' no_inodes)
    × SameOutside 0x200 (with_name 97) m'
dirlookup_lem_example =
    dirlookup_lem disk_sb 0x100 0x200 1 one_entry (with_name 97) no_inodes (letter 97)
      entry-IsDirectory (letter-HasName 97)

-- The entry is there under its name and under no other.
finds :
    (lookup_in one_entry 1 (letter 97) ≡ some (0, 7)) × (lookup_in one_entry 1 (letter 98) ≡ none)
unfolding first_hit same_chars
finds = (refl, refl)

dirlookup-dirlink_example :
    (f' : File) × (t' : Trans) × (m' : Memory) × (count' : ℕ) × (off : ℕ) × (dirlink disk_sb 0x100 9
        0x200 one_entry new_trans
        (with_name 98)
        no_inodes
      ≡ ok (pos 0, f', t', m', no_inodes))
    × IsDirectory f' count'
    × ((name' de' : ℕ) (d : Name) (m2 : Memory) (s2 : Icache)
        → HasName m2 name' de' d
        → (m3 : Memory) × (dirlookup disk_sb name' de' f' m2 s2
            ≡ looked_up
                (if same_chars name_size d (letter 98)
                  then some (off, 9)
                  else lookup_in one_entry 1 d)
                f'.ip.dev
                f'
                m3
                s2))
dirlookup-dirlink_example =
    dirlookup-dirlink disk_sb dir_role 0x100 9 0x200 1 one_entry new_trans (with_name 98) no_inodes
      (letter 98) entry-IsFile entry-IsDirectory (letter-HasName 98) finds.1 (omega arith) two_free
      (record { one_map = omega arith; space = omega arith }) (λ e. omega (arith, e)) (omega arith)

-- ===== src/Inode/Tests.antt =====
-- The inode cache and the path names of kernel/fs.c at concrete inputs: tests of the model, and the
-- theorems applied.
use mp.Prelude.{
  ℕ, ◌<◌, ◌≡◌, ◌≢◌, ◌⊎◌, ◌==◌, refl, true, false, if◌then◌else◌, Option, none, some, List, [], ◌∷◌,
  length, Outcome, ok, ◌>>=◌, arith,
}
use mp.Prelude.Int.{ℤ, pos, negsuc}
use mp.Inode.{
  Dinode, Inode, Icache, iget, iget_scan, idup, iput, ilock, load, iunlock, iunlockput, t_dir,
  t_file, t_symlink, set_inode,
}
use mp.Inode.Path.{
  skipelem, skip_slashes, span_elem, slash, namex, namex_from, start, walk_one, enter_entry,
  follow_link, dirlookup, find_entry, same_name, follow,
}
use mp.Inode.Elements.{elements, skipelem_lem, Starts}
use mp.Inode.Cache.{holds, IsUnique, iget-IsUnique}
use mp.Inode.Leaks.{symlink_loses_entry}

-- `///a//bb`
abbrev a_path : List ℕ
a_path = 47 ∷ 47 ∷ 47 ∷ 97 ∷ 47 ∷ 47 ∷ 98 ∷ 98 ∷ []

skips : skipelem a_path ≡ some (97 ∷ [], 98 ∷ 98 ∷ [])
unfolding skipelem skip_slashes span_elem
skips = refl

skipelem_lem_example :
    ((skipelem a_path ≡ none) × (elements a_path ≡ []))
    ⊎ ((name : List ℕ) × (rest : List ℕ) × (skipelem a_path ≡ some (name, rest))
        × (elements a_path ≡ name ∷ elements rest)
        × (length rest < 8)
        × Starts rest)
skipelem_lem_example = skipelem_lem a_path

-- The root holds the file `a` and the symbolic link `b` to `/a`.
abbrev dinodes : ℕ → Dinode
dinodes n =
    if n == 1
    then record {
      type = t_dir;
      mode = 3;
      nlink = 1;
      entries = record { inum = 2; name = 97 ∷ [] } ∷ record { inum = 3; name = 98 ∷ [] } ∷ [];
      target = [];
    }
    else if n == 2
    then record { type = t_file; mode = 3; nlink = 1; entries = []; target = [] }
    else record { type = t_symlink; mode = 3; nlink = 1; entries = []; target = 47 ∷ 97 ∷ [] }

abbrev unused_entry : Inode
unused_entry = record {
  dev = 0;
  inum = 0;
  ref = pos 0;
  valid = false;
  locked = false;
  type = 0;
  mode = 0;
  nlink = 0;
}

-- The root is the current directory, in entry 0.
abbrev booted : Icache
booted = record {
  inode = λ i.
      if i == 0
      then record {
        dev = 1;
        inum = 1;
        ref = pos 1;
        valid = true;
        locked = false;
        type = t_dir;
        mode = 3;
        nlink = 1;
      }
      else unused_entry;
  dinode = dinodes;
  cwd = 0;
}

-- The link `/b` leads to the file, and its entry is left with the count -1.
abbrev through_link : Outcome (Option ℕ × List ℕ × Icache)
through_link = namex 5 false (47 ∷ 98 ∷ []) booted

entry_1_ref : Outcome ℤ
entry_1_ref = through_link >>= λ (ip, name, s). ok (s.inode 1).ref

goes_through_link : entry_1_ref ≡ ok (negsuc 0)
unfolding entry_1_ref ◌>>=◌ namex namex_from start walk_one enter_entry follow_link dirlookup
    find_entry same_name skipelem skip_slashes span_elem iget iget_scan idup iput ilock load iunlock
    iunlockput
goes_through_link = refl

booted-IsUnique : IsUnique booted
booted-IsUnique dev inum i j hi hj first second = ground arith

iget-IsUnique_example :
    IsUnique (set_inode 0 (record (booted.inode 0) { ref = pos 2 }) booted)
    × (holds 1 1 (record (booted.inode 0) { ref = pos 2 }) ≡ true)
iget-IsUnique_example =
    iget-IsUnique 1 1 0 booted (set_inode 0 (record (booted.inode 0) { ref = pos 2 }) booted)
      booted-IsUnique (unfold iget iget_scan in refl)

-- The link in entry 1, as `namex` has locked it.
abbrev at_link : Icache
at_link =
    set_inode 1
      (record {
        dev = 1;
        inum = 3;
        ref = pos 1;
        valid = true;
        locked = true;
        type = t_symlink;
        mode = 3;
        nlink = 1;
      })
      booted

symlink_loses_entry_example :
    (s' : Icache) × (follow_link 1 [] at_link ≡ ok (follow (47 ∷ 97 ∷ slash ∷ []), s'))
    × ((s'.inode 1).ref ≡ negsuc 0)
    × ((dev inum j : ℕ) (s'' : Icache)
        → iget dev inum s' ≡ ok (j, s'')
        → (j ≢ 1) × ((s''.inode 1).ref ≡ negsuc 0))
symlink_loses_entry_example = symlink_loses_entry 1 [] at_link refl refl (omega arith) (omega arith)

-- ===== src/Inode/Path.antt =====
-- kernel/fs.c: `dirlookup`, `skipelem`, `namex`, `namei` and `nameiparent`.
use mp.Prelude.{
  ℕ, zero, suc, ◌+◌, ◌-◌, ◌%◌, Bool, true, false, not, ◌&&◌, ◌==◌, leb, if◌then◌else◌, Option, none,
  some, List, [], ◌∷◌, ◌++◌, length, take, Outcome, ok, panic, asleep, ◌>>=◌,
}
use mp.Param.{root_dev}
use mp.Inode.{Dirent, Icache, iget, idup, iput, ilock, iunlock, iunlockput, t_dir, t_symlink}

-- `DIRSIZ`, `MAXPATH` and `ROOTINO`
abbrev pub dirsiz : ℕ
dirsiz = 14

abbrev pub maxpath : ℕ
maxpath = 128

abbrev pub root_ino : ℕ
root_ino = 1

-- The character `/`.
abbrev pub slash : ℕ
slash = 47

unfoldable pub skip_slashes : List ℕ → List ℕ
skip_slashes [] = []
skip_slashes (c ∷ r) = let rest = skip_slashes r in if c == slash then rest else c ∷ r

-- The characters up to the next `/` or the end, and the rest.
unfoldable pub span_elem : List ℕ → List ℕ × List ℕ
span_elem [] = ([], [])
span_elem (c ∷ r) = let (a, b) = span_elem r in if c == slash then ([], c ∷ r) else (c ∷ a, b)

-- `skipelem` on the bytes of the path before its NUL: the name, and the path after it.
unfoldable pub skipelem : List ℕ → Option (List ℕ × List ℕ)
skipelem path = elim (skip_slashes path) [
  | [] ↦ none
  | c ∷ r ↦ let (a, b) = span_elem (c ∷ r) in some (take dirsiz a, skip_slashes b)
]

-- `namecmp(s, t) == 0`
unfoldable pub same_name : List ℕ → List ℕ → Bool
same_name [] [] = true
same_name [] (d ∷ t) = false
same_name (c ∷ s) [] = false
same_name (c ∷ s) (d ∷ t) = (c == d) && same_name s t

-- The loop of `dirlookup`: the inode number of the first entry in use with the name.
unfoldable pub find_entry : List ℕ → List Dirent → Option ℕ
find_entry name [] = none
find_entry name (de ∷ r) =
    let rest = find_entry name r in
    if not (de.inum == 0) && same_name name de.name then some de.inum else rest

-- `dirlookup` on a locked directory.
unfoldable pub dirlookup : ℕ → List ℕ → Icache → Outcome (Option ℕ × Icache)
dirlookup i name s =
    let dp = s.inode i in
    if not (dp.type == t_dir) then panic else elim (find_entry name (s.dinode dp.inum).entries) [
      | none ↦ ok (none, s)
      | some inum ↦ iget dp.dev inum s >>= λ (j, s'). ok (some j, s')
    ]

-- `mode & M_READ`
abbrev pub m_read : ℕ → Bool
m_read mode = mode % 2 == 1

-- What a round of the loop of `namex` comes to: a result, with the name for `nameiparent`; the next
-- inode; or the path to start again from after a symbolic link.
pub data Walk : Type 0 where
  stop : Option ℕ → List ℕ → Walk
  go_on : ℕ → Walk
  follow : List ℕ → Walk

-- The part of `namex` for a symbolic link that is locked.
unfoldable pub follow_link : ℕ → List ℕ → Icache → Outcome (Walk × Icache)
follow_link i rest s =
    let target = take (maxpath - 1) (s.dinode (s.inode i).inum).target in
    iunlockput i s >>= λ s'.
    if leb maxpath (length target + 1 + length rest)
    then ok (stop none [], s')
    else ok (follow (target ++ slash ∷ rest), iput i s')

-- The inode that the entry names.
unfoldable pub enter_entry : ℕ → List ℕ → Icache → Outcome (Walk × Icache)
enter_entry j rest s = do
  s' ← ilock j s
  if (s'.inode j).type == t_symlink
      then follow_link j rest s'
      else iunlock j s' >>= λ s''. ok (go_on j, s'')

-- One round of the loop of `namex`, at the inode `i`, for the element `name` with `rest` after it.
unfoldable pub walk_one : Bool → ℕ → List ℕ → List ℕ → Icache → Outcome (Walk × Icache)
walk_one parent i name rest s = do
  s1 ← ilock i s
  let ip = s1.inode i
  let give_up = iunlockput i s1 >>= λ s2. ok (stop none [], s2)
  let found = dirlookup i name s1 >>= λ (next, s2). elim next [
    | none ↦ iunlockput i s2 >>= λ s3. ok (stop none [], s3)
    | some j ↦ iunlockput i s2 >>= λ s3. enter_entry j rest s3
  ]
  let early = iunlock i s1 >>= λ s2. ok (stop (some i) name, s2)
  if (ip.type == t_dir) && not (m_read ip.mode)
      then give_up
      else if not (ip.type == t_dir)
      then give_up
      else if parent && (length rest == 0)
      then early
      else found

-- Where `namex` starts.
unfoldable pub start : List ℕ → Icache → Outcome (ℕ × Icache)
start [] s = ok (s.cwd, idup s.cwd s)
start (c ∷ r) s = if c == slash then iget root_dev root_ino s else ok (s.cwd, idup s.cwd s)

-- The loop of `namex` from the inode `i` on, and the end of it. Fuel runs out as `asleep`: symbolic
-- links that lead to each other make the code recurse for ever.
unfoldable pub namex_from : ℕ → Bool → ℕ → List ℕ → Icache → Outcome (Option ℕ × List ℕ × Icache)
namex_from zero parent i path s = asleep
namex_from (suc fuel) parent i path s = elim (skipelem path) [
  | none ↦ if parent then ok (none, [], iput i s) else ok (some i, [], s)
  | some (name, rest) ↦ walk_one parent i name rest s >>= λ (w, s'). elim w [
    | stop r n ↦ ok (r, n, s')
    | go_on j ↦ namex_from fuel parent j rest s'
    | follow path' ↦ start path' s' >>= λ (j, s''). namex_from fuel parent j path' s''
  ]
]

unfoldable pub namex : ℕ → Bool → List ℕ → Icache → Outcome (Option ℕ × List ℕ × Icache)
namex fuel parent path s = start path s >>= λ (i, s'). namex_from fuel parent i path s'

-- The loop of `namei`, that calls `namei` again while the inode is a symbolic link, and the call of
-- `namex` after it.
unfoldable mutual
  pub namei_follow : ℕ → Option ℕ → Icache → Outcome Icache
  namei_follow zero ip s = asleep
  namei_follow (suc fuel) none s = ok s
  namei_follow (suc fuel) (some i) s =
      let target = take (maxpath - 1) (s.dinode (s.inode i).inum).target in
      elim ((s.inode i).type == t_symlink) [
        | true ↦ namei fuel target (iput i s) >>= λ (ip, s'). namei_follow fuel ip s'
        | false ↦ ok s
      ]

  pub namei : ℕ → List ℕ → Icache → Outcome (Option ℕ × Icache)
  namei zero path s = asleep
  namei (suc fuel) path s = do
    (ip, n, s1) ← namex fuel false path s
    s2 ← namei_follow fuel ip s1
    (ip', n', s3) ← namex fuel false path s2
    ok (ip', s3)

unfoldable pub nameiparent : ℕ → List ℕ → Icache → Outcome (Option ℕ × List ℕ × Icache)
nameiparent fuel path s = namex fuel true path s

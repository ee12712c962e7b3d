-- ===== src/Inode.antt =====
-- kernel/fs.c from `iget` to `namei`: the inode cache, directories and path names. The contents of a
-- directory are its entries in order, and the contents of a symbolic link its bytes, as `readi` gives
-- them. One process runs: a lock that is taken stays taken until it releases it.
pub mod Cache
pub mod Path
pub mod Elements
pub mod Leaks
pub mod Lookups
mod Tests
use mp.Prelude.{
  ℕ, zero, suc, ◌+◌, ◌-◌, ◌*◌, ◌<◌, Bool, true, false, not, ◌&&◌, ◌||◌, ◌==◌, ltb, leb,
  if◌then◌else◌, Option, none, some, List, [], ◌∷◌, ◌++◌, Outcome, ok, panic, asleep, ◌>>=◌,
}
use mp.Prelude.Int.{ℤ, pos, minus_one, incr, decr, ltz, eqb}
use mp.Prelude.Update.{update}
use mp.Param.{ninode, root_dev}

-- `T_DIR`, `T_FILE`, `T_DEVICE` and `T_SYMLINK` of kernel/stat.h
abbrev pub t_dir : ℕ
t_dir = 1

abbrev pub t_file : ℕ
t_file = 2

abbrev pub t_device : ℕ
t_device = 3

abbrev pub t_symlink : ℕ
t_symlink = 4

-- `struct dirent`, with the bytes of the name before a NUL.
pub record Dirent : Type 0 where
  pub inum : ℕ
  pub name : List ℕ

-- An inode on the disk with its contents.
pub record Dinode : Type 0 where
  pub type : ℕ
  pub mode : ℕ
  pub nlink : ℕ
  pub entries : List Dirent
  pub target : List ℕ

-- `struct inode`, an entry of `icache`; `locked` is its sleep lock.
pub record Inode : Type 0 where
  pub dev : ℕ
  pub inum : ℕ
  pub ref : ℤ
  pub valid : Bool
  pub locked : Bool
  pub type : ℕ
  pub mode : ℕ
  pub nlink : ℕ

-- `icache.inode`, the inodes on disk, and `cwd` of the process.
pub record Icache : Type 0 where
  pub inode : ℕ → Inode
  pub dinode : ℕ → Dinode
  pub cwd : ℕ

abbrev pub set_inode : ℕ → Inode → Icache → Icache
set_inode i x s = record s { inode = update s.inode i x }

abbrev pub set_dinode : ℕ → Dinode → Icache → Icache
set_dinode n x s = record s { dinode = update s.dinode n x }

-- The loop of `iget` from `i` on: the entry of the inode, or else the first empty one.
pub data Found : Type 0 where
  cached : ℕ → Found
  fresh : Option ℕ → Found

-- `if(empty == 0 && ip->ref == 0) empty = ip`
abbrev pub remember : Option ℕ → ℕ → Inode → Option ℕ
remember none i ip = if eqb ip.ref (pos 0) then some i else none
remember (some e) i ip = some e

unfoldable pub iget_scan : ℕ → ℕ → (ℕ → Inode) → ℕ → ℕ → Option ℕ → Found
iget_scan dev inum inode i zero empty = fresh empty
iget_scan dev inum inode i (suc left) empty =
    let ip = inode i in
    let rest = iget_scan dev inum inode (i + 1) left (remember empty i ip) in
    if ltz (pos 0) ip.ref && (ip.dev == dev) && (ip.inum == inum) then cached i else rest

unfoldable pub iget : ℕ → ℕ → Icache → Outcome (ℕ × Icache)
iget dev inum s = elim (iget_scan dev inum s.inode 0 ninode none) [
  | cached i ↦ ok (i, set_inode i (record (s.inode i) { ref = incr (s.inode i).ref }) s)
  | fresh none ↦ panic
  | fresh (some i) ↦
      ok (
        i,
        set_inode i (record (s.inode i) { dev = dev; inum = inum; ref = pos 1; valid = false }) s,
      )
]

unfoldable pub idup : ℕ → Icache → Icache
idup i s = set_inode i (record (s.inode i) { ref = incr (s.inode i).ref }) s

-- `ilock` after `acquiresleep`.
unfoldable pub load : ℕ → Icache → Outcome Icache
load i s =
    let ip = s.inode i in
    let dip = s.dinode ip.inum in
    if ip.valid
    then ok (set_inode i (record ip { locked = true }) s)
    else if dip.type == 0
    then panic
    else ok (
        set_inode i
          (record ip {
            locked = true;
            valid = true;
            type = dip.type;
            mode = dip.mode;
            nlink = dip.nlink;
          })
          s)

unfoldable pub ilock : ℕ → Icache → Outcome Icache
ilock i s =
    let ip = s.inode i in
    if ltz ip.ref (pos 1) then panic else if ip.locked then asleep else load i s

unfoldable pub iunlock : ℕ → Icache → Outcome Icache
iunlock i s =
    let ip = s.inode i in
    if not ip.locked || ltz ip.ref (pos 1)
    then panic
    else ok (set_inode i (record ip { locked = false }) s)

-- `itrunc`, `ip->type = 0` and `iupdate` of `iput`.
abbrev release_inode : ℕ → Icache → Icache
release_inode i s =
    let ip = s.inode i in
    set_inode i (record ip { type = 0; valid = false; ref = decr ip.ref })
      (set_dinode ip.inum
        (record { type = 0; mode = ip.mode; nlink = ip.nlink; entries = []; target = [] }) s)

unfoldable pub iput : ℕ → Icache → Icache
iput i s =
    let ip = s.inode i in
    if eqb ip.ref (pos 1) && ip.valid && (ip.nlink == 0)
    then release_inode i s
    else set_inode i (record ip { ref = decr ip.ref }) s

unfoldable pub iunlockput : ℕ → Icache → Outcome Icache
iunlockput i s = iunlock i s >>= λ s'. ok (iput i s')

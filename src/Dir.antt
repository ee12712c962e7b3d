-- ===== src/Dir.antt =====
-- kernel/fs.c: `dirlookup` and `dirlink`, and `isdirempty` of kernel/sysfile.c, over `readi` and
-- `writei`. The directory is locked, and the entry `de` of each routine is at the address `de`.
pub mod Entries
pub mod Lookup
pub mod Slot
pub mod Empty
pub mod Link
pub mod RoundTrip
mod Tests
use mp.Prelude.{
  ℕ, zero, suc, ◌+◌, ◌-◌, ◌*◌, ◌/◌, ◌%◌, ◌^◌, ◌≤◌, ◌<◌, min, max, ◌≡◌, refl, sym, ap, ap₂, ◌∙◌,
  fun_ext, subst, ◌≢◌, ◌↔◌, ◌⊎◌, inl, inr, Bool, true, false, not, ◌&&◌, ◌||◌, Option, none, some,
  List, [], ◌∷◌, ◌++◌, map, reverse, append-nil, append_assoc, arith, ltb, leb, ◌==◌, if◌then◌else◌,
  ltb→lt, lt→ltb, ltb→le, le→ltb, leb→le, ==→eq, eq→==, ==→ne, ne→==, ==_refl, Bool-cases,
  Option-cases, All, length, get_or, set, take, drop, length-append, length-set, get_or-set_self,
  get_or-set_ne, length-take, Distinct, Outcome, ok, panic, asleep, ◌>>=◌, >>=-eq-ok, Ensures,
  Ensures-bind, Ensures-return,
}
use mp.Prelude.Int.{ℤ, pos, negsuc, eqb, ltz, minus_one, eqb→eq, to_int, incr, decr, sub_int}
use mp.Words.{
  Bytes, read_u32, write_u32, read_u16, write_u16, read-write_u16, read-write_u32,
  read-write_u32_ne,
}
use mp.Str.{
  Memory, memset, memcmp, move_down, move_up, memmove, memcpy, strncmp, pad, strncpy, safe_copy,
  safestrcpy, strlen_from,
}
use mp.Fs.{
  Superblock, Disk, bpb, bblock, bzero, mask, test, with_bit, without_bit, bit, find_clear,
  balloc_from, balloc, bfree,
}
use mp.Fs.Content.{
  ndirect, nindirect, maxfile, dinode_size, ipb, m_all, iblock, ioffset, Core, File, write_addrs,
  store_core, iupdate, load_core, clear_dinode, ialloc_from, ialloc, bmap_direct, bmap_entry, bmap,
  trunc_direct, trunc_indirect, free_indirect, itrunc, Stat, stati,
}
use mp.Fs.Trans.{Trans}
use mp.Fs.ReadWrite.{
  CopyOut, CopyIn, kernel_out, stored, kernel_in, piece, read_from, readi, write_from, writei,
}
use mp.Inode.{
  t_dir, t_file, t_device, t_symlink, Dirent, Dinode, Inode, Icache, set_inode, set_dinode, Found,
  cached, fresh, remember, iget_scan, iget, idup, load, ilock, iunlock, iput, iunlockput,
}

-- `DIRSIZ`, `sizeof(struct dirent)` and `T_DIR`; `inum` is at 0 and `name` at 2.
abbrev pub name_size : ℕ
name_size = 14

abbrev pub dirent_size : ℕ
dirent_size = 16

abbrev pub dir_type : ℕ
dir_type = 1

-- The rounds of a loop over the entries from `off` on.
abbrev pub entries_from : ℕ → ℕ → ℕ
entries_from off size = (size + (dirent_size - 1) - off) / dirent_size

-- `namecmp(s, t) == 0`
unfoldable pub namecmp_same : ℕ → ℕ → Memory → Bool
namecmp_same s t m = eqb (strncmp s t name_size m) (pos 0)

-- The loop of `dirlookup`: the offset and the inode number of the entry.
unfoldable pub lookup_from :
    Superblock → ℕ → ℕ → ℕ → ℕ → File → Memory → Outcome (Option (ℕ × ℕ) × File × Memory)
lookup_from sb name de off zero f m = ok (none, f, m)
lookup_from sb name de off (suc left) f m = do
  (r, f', m') ← readi kernel_out sb de off dirent_size f m
  let rest = lookup_from sb name de (off + dirent_size) left f' m'
  if not (eqb r (pos dirent_size))
      then panic
      else if read_u16 m' de == 0
      then rest
      else if namecmp_same name (de + 2) m'
      then ok (some (off, read_u16 m' de), f', m')
      else rest

-- `iget` of the entry that was found: the index of the inode, and `*poff`.
unfoldable pub get_found : Option (ℕ × ℕ) → ℕ → Icache → Outcome (Option (ℕ × ℕ) × Icache)
get_found none dev s = ok (none, s)
get_found (some (off, inum)) dev s = do (i, s') ← iget dev inum s; ok (some (i, off), s')

unfoldable pub dirlookup :
    Superblock → ℕ → ℕ → File → Memory → Icache → Outcome (Option (ℕ × ℕ) × File × Memory × Icache)
dirlookup sb name de f m s = if not (f.ip.type == dir_type) then panic else do
  (found, f', m') ← lookup_from sb name de 0 (entries_from 0 f.ip.size) f m
  (r, s') ← get_found found f.ip.dev s
  ok (r, f', m', s')

-- The second loop of `dirlink`: the offset of an entry that is free, or the end.
unfoldable pub slot_from : Superblock → ℕ → ℕ → ℕ → File → Memory → Outcome (ℕ × File × Memory)
slot_from sb de off zero f m = ok (off, f, m)
slot_from sb de off (suc left) f m = do
  (r, f', m') ← readi kernel_out sb de off dirent_size f m
  let rest = slot_from sb de (off + dirent_size) left f' m'
  if not (eqb r (pos dirent_size))
      then panic
      else if read_u16 m' de == 0
      then ok (off, f', m')
      else rest

-- `strncpy(de.name, name, DIRSIZ)` and `de.inum = inum`
unfoldable pub fill_entry : ℕ → ℕ → ℕ → Memory → Memory
fill_entry name inum de m = write_u16 (strncpy (de + 2) name name_size m) de inum

-- The part of `dirlink` after the name was not found.
unfoldable pub link_new :
    Superblock → ℕ → ℕ → ℕ → File → Trans → Memory → Outcome (ℤ × File × Trans × Memory)
link_new sb name inum de f t m = do
  (off, f1, m1) ← slot_from sb de 0 (entries_from 0 f.ip.size) f m
  let m2 = fill_entry name inum de m1
  (r, f2, t2) ← writei kernel_in sb de off dirent_size f1 t m2
  if not (eqb r (pos dirent_size)) then panic else ok (pos 0, f2, t2, m2)

unfoldable pub dirlink :
    Superblock
    → ℕ
    → ℕ
    → ℕ
    → File
    → Trans
    → Memory
    → Icache
    → Outcome (ℤ × File × Trans × Memory × Icache)
dirlink sb name inum de f t m s = do
  (found, f1, m1, s1) ← dirlookup sb name de f m s
  elim found [
    | some (i, off) ↦ ok (minus_one, f1, t, m1, iput i s1)
    | none ↦ do (r, f2, t2, m2) ← link_new sb name inum de f1 t m1; ok (r, f2, t2, m2, s1)
  ]

-- `isdirempty`, with its loop.
unfoldable pub empty_from : Superblock → ℕ → ℕ → ℕ → File → Memory → Outcome (Bool × File × Memory)
empty_from sb de off zero f m = ok (true, f, m)
empty_from sb de off (suc left) f m = do
  (r, f', m') ← readi kernel_out sb de off dirent_size f m
  let rest = empty_from sb de (off + dirent_size) left f' m'
  if not (eqb r (pos dirent_size))
      then panic
      else if not (read_u16 m' de == 0)
      then ok (false, f', m')
      else rest

unfoldable pub isdirempty : Superblock → ℕ → File → Memory → Outcome (Bool × File × Memory)
isdirempty sb de f m =
    empty_from sb de (2 * dirent_size) (entries_from (2 * dirent_size) f.ip.size) f m

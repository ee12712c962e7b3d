-- ===== src/Fs/Content.antt =====
-- kernel/fs.c: the inode on disk and the contents of a file, over the blocks as a transaction sees them.
use mp.Prelude.{
  ℕ, zero, suc, ◌+◌, ◌-◌, ◌*◌, ◌/◌, ◌%◌, ◌&&◌, ltb, leb, ◌==◌, if◌then◌else◌, Outcome, ok, panic,
  ◌>>=◌,
}
use mp.Prelude.Update.{update}
use mp.Param.{bsize}
use mp.Words.{Bytes, read_u32, write_u32, read_u16, write_u16}
use mp.Fs.{Superblock, Disk, balloc, bfree}

-- `NDIRECT`, `NINDIRECT`, `MAXFILE`, `IPB`, `sizeof(struct dinode)`, and the types and modes.
abbrev pub ndirect : ℕ
ndirect = 12

abbrev pub nindirect : ℕ
nindirect = bsize / 4

abbrev pub maxfile : ℕ
maxfile = ndirect + nindirect

abbrev pub dinode_size : ℕ
dinode_size = 64

abbrev pub ipb : ℕ
ipb = bsize / dinode_size

abbrev pub m_all : ℕ
m_all = 3

-- `IBLOCK`, and the offset of the inode in its block
abbrev pub iblock : ℕ → Superblock → ℕ
iblock i sb = i / ipb + sb.inodestart

abbrev pub ioffset : ℕ → ℕ
ioffset inum = inum % ipb * dinode_size

-- What `struct inode` has of the inode on disk. `type`, `major`, `mode` and `nlink` are 16-bit patterns.
pub record Core : Type 0 where
  pub dev : ℕ
  pub inum : ℕ
  pub type : ℕ
  pub major : ℕ
  pub mode : ℕ
  pub nlink : ℕ
  pub size : ℕ
  pub addrs : ℕ → ℕ

-- The inode that is locked, and the disk.
pub record File : Type 0 where
  pub ip : Core
  pub disk : Disk

-- `memmove` of the `left` addresses from the `i`-th on, to `dip->addrs` at `o`.
unfoldable pub write_addrs : ℕ → (ℕ → ℕ) → ℕ → ℕ → Bytes → Bytes
write_addrs o addrs i zero b = b
write_addrs o addrs i (suc left) b =
    write_addrs o addrs (i + 1) left (write_u32 b (o + 4 * i) (addrs i))

-- The fields of the inode at `o`, stored.
unfoldable pub store_core : Core → ℕ → Bytes → Bytes
store_core ip o b =
    let b1 = write_u16 b o ip.type in
    let b2 = write_u16 b1 (o + 2) ip.major in
    let b3 = write_u16 b2 (o + 4) ip.mode in
    let b4 = write_u16 b3 (o + 6) ip.nlink in
    write_addrs (o + 12) ip.addrs 0 (ndirect + 1) (write_u32 b4 (o + 8) ip.size)

unfoldable pub iupdate : Superblock → File → File
iupdate sb f =
    let b = iblock f.ip.inum sb in
    record f { disk = update f.disk b (store_core f.ip (ioffset f.ip.inum) (f.disk b)) }

-- The fields that `ilock` reads from the block.
unfoldable pub load_core : Superblock → ℕ → ℕ → Disk → Core
load_core sb dev inum d =
    let b = d (iblock inum sb) in
    let o = ioffset inum in
    record {
      dev = dev;
      inum = inum;
      type = read_u16 b o;
      major = read_u16 b (o + 2);
      mode = read_u16 b (o + 4);
      nlink = read_u16 b (o + 6);
      size = read_u32 b (o + 8);
      addrs = λ i. read_u32 b (o + 12 + 4 * i);
    }

-- `memset(dip, 0, sizeof(*dip))`
unfoldable pub clear_dinode : ℕ → Bytes → Bytes
clear_dinode o b j = if leb o j && ltb j (o + dinode_size) then 0 else b j

-- The loop of `ialloc`, up to its call of `iget`: the number of the inode.
unfoldable pub ialloc_from : Superblock → ℕ → ℕ → ℕ → Disk → Outcome (ℕ × Disk)
ialloc_from sb type inum zero d = panic
ialloc_from sb type inum (suc left) d =
    let b = iblock inum sb in
    let o = ioffset inum in
    let fresh = write_u16 (write_u16 (clear_dinode o (d b)) o type) (o + 4) m_all in
    let rest = ialloc_from sb type (inum + 1) left d in
    if read_u16 (d b) o == 0 then ok (inum, update d b fresh) else rest

unfoldable pub ialloc : Superblock → ℕ → Disk → Outcome (ℕ × Disk)
ialloc sb type d = ialloc_from sb type 1 (sb.ninodes - 1) d

-- `bmap` of a direct block.
unfoldable pub bmap_direct : Superblock → ℕ → File → Outcome (ℕ × File)
bmap_direct sb bn f =
    let addr = f.ip.addrs bn in
    let allocated = balloc sb f.disk in
    if addr == 0
    then (do
      (addr', d) ← allocated
      if addr' == 0
          then panic
          else ok (
            addr',
            record { ip = record (f.ip) { addrs = update f.ip.addrs bn addr' }; disk = d },
          ))
    else ok (addr, f)

-- The entry `bn` of the indirect block at `addr`.
unfoldable pub bmap_entry : Superblock → ℕ → ℕ → File → Outcome (ℕ × File)
bmap_entry sb addr bn f =
    let target = read_u32 (f.disk addr) (4 * bn) in
    let allocated = balloc sb f.disk in
    if target == 0
    then (do
      (target', d) ← allocated
      if target' == 0
          then panic
          else ok
              (target', record f { disk = update d addr (write_u32 (d addr) (4 * bn) target') }))
    else ok (target, f)

unfoldable pub bmap : Superblock → ℕ → File → Outcome (ℕ × File)
bmap sb bn f =
    if ltb bn ndirect
    then bmap_direct sb bn f
    else if ltb (bn - ndirect) nindirect
    then (do (addr, f') ← bmap_direct sb ndirect f; bmap_entry sb addr (bn - ndirect) f')
    else panic

-- The two loops of `itrunc`.
unfoldable pub trunc_direct : Superblock → ℕ → ℕ → File → Outcome File
trunc_direct sb i zero f = ok f
trunc_direct sb i (suc left) f =
    let freed = bfree sb (f.ip.addrs i) f.disk in
    do
      f' ← if f.ip.addrs i == 0 then ok f else (do
        d ← freed
        ok (record { ip = record (f.ip) { addrs = update f.ip.addrs i 0 }; disk = d }))
      trunc_direct sb (i + 1) left f'

unfoldable pub trunc_indirect : Superblock → ℕ → ℕ → ℕ → Disk → Outcome Disk
trunc_indirect sb addr j zero d = ok d
trunc_indirect sb addr j (suc left) d =
    let a = read_u32 (d addr) (4 * j) in
    let freed = bfree sb a d in
    do d' ← if a == 0 then ok d else freed; trunc_indirect sb addr (j + 1) left d'

unfoldable pub free_indirect : Superblock → File → Outcome File
free_indirect sb f =
    let addr = f.ip.addrs ndirect in
    do
      d ← trunc_indirect sb addr 0 nindirect f.disk
      d' ← bfree sb addr d
      ok (record { ip = record (f.ip) { addrs = update f.ip.addrs ndirect 0 }; disk = d' })

unfoldable pub itrunc : Superblock → File → Outcome File
itrunc sb f = do
  f' ← trunc_direct sb 0 ndirect f
  f'' ← if f'.ip.addrs ndirect == 0 then ok f' else free_indirect sb f'
  ok (iupdate sb (record f'' { ip = record (f''.ip) { size = 0 } }))

-- `struct stat`
pub record Stat : Type 0 where
  pub dev : ℕ
  pub ino : ℕ
  pub type : ℕ
  pub nlink : ℕ
  pub size : ℕ
  pub mode : ℕ

unfoldable pub stati : Core → Stat
stati ip = record {
  dev = ip.dev;
  ino = ip.inum;
  type = ip.type;
  nlink = ip.nlink;
  size = ip.size;
  mode = ip.mode;
}

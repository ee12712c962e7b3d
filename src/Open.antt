-- ===== src/Open.antt =====
-- `sys_open_internal` of kernel/sysfile.c from the permission checks on: the inode has been found, or
-- made by `create`, and is locked. The open files are those of Files, the inodes
-- those of Inode, where the contents that `itrunc` gives up have no blocks, and `end_op` is that of Log.
pub mod Branches
pub mod Permission
pub mod Counted
mod Tests
use mp.Prelude.{
  ℕ, ◌-◌, ◌/◌, ◌%◌, ◌^◌, Bool, true, false, not, ◌&&◌, ◌||◌, ◌==◌, if◌then◌else◌, Option, none,
  some, [], Outcome, ok, ◌>>=◌,
}
use mp.Prelude.Int.{ℤ, pos, minus_one, ltz}
use mp.Param.{ndev}
use mp.Inode.{t_dir, t_file, t_device, t_symlink, Icache, set_dinode, iunlock, iunlockput}
use mp.Log.{Log, end_op}
use mp.Files.{File, Ftable, filealloc, fdalloc, fileclose, set_file, fd_device, fd_inode}

-- `mode & M_READ` and `mode & M_WRITE`
abbrev pub m_read : ℕ → Bool
m_read mode = mode % 2 == 1

abbrev pub m_write : ℕ → Bool
m_write mode = mode / 2 % 2 == 1

-- `omode & O_WRONLY` and so on.
abbrev pub o_wronly : ℕ → Bool
o_wronly omode = omode % 2 == 1

abbrev pub o_rdwr : ℕ → Bool
o_rdwr omode = omode / 2 % 2 == 1

abbrev pub o_noaccess : ℕ → Bool
o_noaccess omode = omode / 4 % 2 == 1

abbrev pub o_create : ℕ → Bool
o_create omode = omode / 512 % 2 == 1

abbrev pub o_trunc : ℕ → Bool
o_trunc omode = omode / 1024 % 2 == 1

-- What `open` reads of the locked inode.
pub record Node : Type 0 where
  pub ip : ℕ
  pub type : ℕ
  pub mode : ℕ
  pub major : ℤ

abbrev pub want_read : ℕ → Bool
want_read omode = not (o_wronly omode)

abbrev pub want_write : ℕ → Bool
want_write omode = o_wronly omode || o_rdwr omode

-- `pass` of the permission checks.
unfoldable pub passes : ℕ → Node → Bool
passes omode n =
    not (want_read omode && not (m_read n.mode))
    && not (want_write omode && not (m_write n.mode))
    && not ((n.type == t_dir) && want_write omode)

-- Whether the checks that the flags ask for refuse the inode.
unfoldable pub refused : ℕ → Node → Bool
refused omode n =
    (not (o_create omode) && not (o_noaccess omode) && not (passes omode n))
    || ((n.type == t_device) && (ltz n.major (pos 0) || not (ltz n.major (pos ndev))))

-- The `short` as 16 bits.
abbrev pub major_of : ℤ → ℕ
major_of (pos n) = n
major_of (ℤ.negsuc n) = 2 ^ 16 - 1 - n

-- The fields of `f` that `open` sets.
unfoldable pub opened : ℕ → Node → File → File
opened omode n f =
    let hidden = o_noaccess omode && not (n.type == t_symlink) in
    record f {
      kind = if n.type == t_device then fd_device else fd_inode;
      major = major_of n.major;
      ip = n.ip;
      off = 0;
      readable = if hidden then false else want_read omode;
      writable = if hidden then false else want_write omode;
    }

-- The file `f` gets a descriptor, or is closed again.
unfoldable pub install : ℕ → ℕ → Node → ℕ → Ftable → Outcome (ℤ × Ftable)
install p omode n f t =
    let (fd, t') = fdalloc p f t in
    elim fd [
      | none ↦ fileclose f t' >>= λ (r, t''). ok (minus_one, t'')
      | some d ↦ ok (pos d, set_file f (opened omode n (t'.file f)) t')
    ]

-- What becomes of the open files: none is taken if the inode is refused.
unfoldable pub open_files : ℕ → ℕ → Node → Ftable → Outcome (ℤ × Ftable)
open_files p omode n t = elim (refused omode n) [
  | true ↦ ok (minus_one, t)
  | false ↦
      let (f, t') = filealloc t in
      elim f [ none ↦ ok (minus_one, t') | some i ↦ install p omode n i t' ]
]

-- Whether `itrunc` is called.
unfoldable pub truncates : ℕ → Node → Bool
truncates omode n = o_trunc omode && (n.type == t_file)

-- `itrunc` of the inode: nothing is left of its contents, and `iupdate` stores the other fields.
unfoldable pub truncate : ℕ → Icache → Icache
truncate i s =
    let ip = s.inode i in
    set_dinode ip.inum
      (record { type = ip.type; mode = ip.mode; nlink = ip.nlink; entries = []; target = [] }) s

-- The inode is unlocked, and put where `open` fails.
unfoldable pub leave_inode : ℕ → Node → ℤ → Icache → Outcome Icache
leave_inode omode n r s =
    if ltz r (pos 0)
    then iunlockput n.ip s
    else iunlock n.ip (if truncates omode n then truncate n.ip s else s)

unfoldable pub open_node :
    ℕ → ℕ → Node → Ftable → Icache → Log → Outcome (ℤ × Ftable × Icache × Log)
open_node p omode n t s l = do
  (r, t') ← open_files p omode n t
  s' ← leave_inode omode n r s
  l' ← end_op l
  ok (r, t', s', l')

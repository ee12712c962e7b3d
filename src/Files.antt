-- ===== src/Files.antt =====
-- kernel/file.c: the table of open files with its reference counts; and the descriptors of the
-- processes, as `fdalloc`, `argfd`, `sys_dup` and `sys_close` of kernel/sysfile.c and the loops of
-- `fork` and `exit` in kernel/proc.c use them.
pub mod Count
pub mod Counts
pub mod Fork
pub mod Exit
mod Tests
use mp.Prelude.{
  ℕ, zero, suc, ◌+◌, ◌-◌, ◌<◌, Bool, true, false, not, ◌&&◌, ◌||◌, ◌==◌, ltb, leb, if◌then◌else◌,
  Option, none, some, List, [], ◌∷◌, ◌++◌, Outcome, ok, panic, asleep, ◌>>=◌,
}
use mp.Prelude.Int.{ℤ, pos, minus_one, ltz}
use mp.Prelude.Update.{update}
use mp.Param.{nofile, nfile}

-- `f->type`
pub data Kind : Type 0 where
  fd_none fd_pipe fd_inode fd_device : Kind

-- `struct file`. Pipes and inodes are named by number.
pub record File : Type 0 where
  pub kind : Kind
  pub ref : ℕ
  pub readable : Bool
  pub writable : Bool
  pub pipe : ℕ
  pub ip : ℕ
  pub off : ℕ
  pub major : ℕ

-- `ftable`, and `ofile` of each process by its index in `proc`.
pub record Ftable : Type 0 where
  pub file : ℕ → File
  pub ofile : ℕ → ℕ → Option ℕ

abbrev pub set_file : ℕ → File → Ftable → Ftable
set_file f x t = record t { file = update t.file f x }

abbrev pub set_ofile : ℕ → ℕ → Option ℕ → Ftable → Ftable
set_ofile p fd x t = record t { ofile = update t.ofile p (update (t.ofile p) fd x) }

-- The scan of `filealloc` from `f` on.
unfoldable pub find_file : (ℕ → File) → ℕ → ℕ → Option ℕ
find_file file f zero = none
find_file file f (suc left) =
    let rest = find_file file (f + 1) left in if (file f).ref == 0 then some f else rest

unfoldable pub filealloc : Ftable → Option ℕ × Ftable
filealloc t = elim (find_file t.file 0 nfile) [
  | none ↦ (none, t)
  | some f ↦ (some f, set_file f (record (t.file f) { ref = 1 }) t)
]

unfoldable pub filedup : ℕ → Ftable → Outcome Ftable
filedup f t =
    if ltb (t.file f).ref 1
    then panic
    else ok (set_file f (record (t.file f) { ref = (t.file f).ref + 1 }) t)

-- What `fileclose` does to the object behind the last reference.
pub data Release : Type 0 where
  nothing : Release
  close_pipe : ℕ → Bool → Release
  put_inode : ℕ → Release

abbrev pub release_of : File → Release
release_of ff = elim ff.kind [
  | fd_none ↦ nothing
  | fd_pipe ↦ close_pipe ff.pipe ff.writable
  | fd_inode ↦ put_inode ff.ip
  | fd_device ↦ put_inode ff.ip
]

unfoldable pub fileclose : ℕ → Ftable → Outcome (Release × Ftable)
fileclose f t =
    let ff = t.file f in
    if ltb ff.ref 1
    then panic
    else if ltb 1 ff.ref
    then ok (nothing, set_file f (record ff { ref = ff.ref - 1 }) t)
    else ok (release_of ff, set_file f (record ff { ref = 0; kind = fd_none }) t)

-- The scan of `fdalloc` from `fd` on.
unfoldable pub find_fd : (ℕ → Option ℕ) → ℕ → ℕ → Option ℕ
find_fd ofile fd zero = none
find_fd ofile fd (suc left) =
    let rest = find_fd ofile (fd + 1) left in elim (ofile fd) [ none ↦ some fd | some _ ↦ rest ]

unfoldable pub fdalloc : ℕ → ℕ → Ftable → Option ℕ × Ftable
fdalloc p f t = elim (find_fd (t.ofile p) 0 nofile) [
  | none ↦ (none, t)
  | some fd ↦ (some fd, set_ofile p fd (some f) t)
]

-- `argfd` on the argument that `argint` gives.
unfoldable pub argfd : ℕ → ℤ → Ftable → Option (ℕ × ℕ)
argfd p (ℤ.negsuc n) t = none
argfd p (pos fd) t = elim (t.ofile p fd) [
  | none ↦ none
  | some f ↦ if leb nofile fd then none else some (fd, f)
]

-- The result of the system call with the table; `minus_one` for an error.
abbrev dup_into : ℕ → ℕ → Ftable → Outcome (ℤ × Ftable)
dup_into p f t =
    let (fd, t') = fdalloc p f t in
    elim fd [ none ↦ ok (minus_one, t') | some n ↦ filedup f t' >>= λ t''. ok (pos n, t'') ]

unfoldable pub sys_dup : ℕ → ℤ → Ftable → Outcome (ℤ × Ftable)
sys_dup p arg t = elim (argfd p arg t) [ none ↦ ok (minus_one, t) | some (fd, f) ↦ dup_into p f t ]

unfoldable pub sys_close : ℕ → ℤ → Ftable → Outcome (ℤ × Release × Ftable)
sys_close p arg t = elim (argfd p arg t) [
  | none ↦ ok (minus_one, nothing, t)
  | some (fd, f) ↦ fileclose f (set_ofile p fd none t) >>= λ (r, t'). ok (pos 0, r, t')
]

-- The loop of `fork`: the child `np` gets the open files of `p`, each with one more reference.
unfoldable pub fork_files : ℕ → ℕ → ℕ → ℕ → Ftable → Outcome Ftable
fork_files p np fd zero t = ok t
fork_files p np fd (suc left) t = elim (t.ofile p fd) [
  | none ↦ fork_files p np (fd + 1) left t
  | some f ↦ filedup f t >>= λ t'. fork_files p np (fd + 1) left (set_ofile np fd (some f) t')
]

-- The loop of `exit`: it closes the open files of `p`.
unfoldable pub exit_files : ℕ → ℕ → ℕ → Ftable → Outcome (List Release × Ftable)
exit_files p fd zero t = ok ([], t)
exit_files p fd (suc left) t = elim (t.ofile p fd) [
  | none ↦ exit_files p (fd + 1) left t
  | some f ↦ fileclose f t >>= λ (r, t').
      exit_files p (fd + 1) left (set_ofile p fd none t') >>= λ (rs, t''). ok (r ∷ rs, t'')
]

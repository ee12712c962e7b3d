-- ===== src/Files/Tests.antt =====
-- kernel/file.c at concrete inputs: tests of the model, and the theorems applied.
use mp.Prelude.{ℕ, ◌≡◌, ◌<◌, ◌==◌, refl, false, true, if◌then◌else◌, none, some, List, ok, arith}
use mp.Param.{nofile}
use mp.Files.{
  File, Ftable, Release, fd_none, fd_pipe, fdalloc, filealloc, find_fd, find_file, fork_files,
  exit_files, set_file, set_ofile,
}
use mp.Files.Count.{rows, cells}
use mp.Files.Counts.{IsCounted, after_dup}
use mp.Files.Fork.{fork_files-IsCounted}
use mp.Files.Exit.{exit_files-IsCounted}

abbrev a_pipe : ℕ → File
a_pipe f = record {
  kind = if 0 == f then fd_pipe else fd_none;
  ref = if 0 == f then 1 else 0;
  readable = false;
  writable = true;
  pipe = 7;
  ip = 0;
  off = 0;
  major = 0;
}

-- File 0 has one reference, which a call in progress holds.
abbrev fresh : Ftable
fresh = record { file = a_pipe; ofile = λ p fd. none }

abbrev holder : ℕ → ℕ
holder f = if 0 == f then 1 else 0

fresh-IsCounted : IsCounted holder fresh
unfolding rows cells
fresh-IsCounted = record { refs = λ f. ground arith }

-- Descriptor 0 of process 0 refers to file 0.
abbrev opened : Ftable
opened = set_file 0 (record (a_pipe 0) { ref = 2 }) (set_ofile 0 0 (some 0) fresh)

opened-IsCounted : IsCounted holder opened
opened-IsCounted = after_dup fresh-IsCounted 0 0 0 (omega arith) (omega arith) refl (omega arith)

allocates : ((filealloc opened).0 ≡ some 1) × ((fdalloc 0 1 opened).0 ≡ some 1)
unfolding filealloc fdalloc find_fd find_file
allocates = (refl, refl)

fork_files-IsCounted_example :
    (t' : Ftable) × (fork_files 0 1 0 nofile opened ≡ ok t')
    × IsCounted holder t'
    × ((n : ℕ) → n < nofile → t'.ofile 1 n ≡ opened.ofile 0 n)
    × (t'.ofile 0 ≡ opened.ofile 0)
fork_files-IsCounted_example =
    fork_files-IsCounted 0 1 opened (omega arith) (omega arith) (omega arith) (λ n. refl)
      opened-IsCounted

exit_files-IsCounted_example :
    (r : List Release × Ftable) × (exit_files 0 0 nofile opened ≡ ok r)
    × IsCounted holder r.1
    × ((n : ℕ) → n < nofile → r.1.ofile 0 n ≡ none)
exit_files-IsCounted_example = exit_files-IsCounted 0 opened (omega arith) opened-IsCounted

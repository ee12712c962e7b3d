-- ===== src/Open/Branches.antt =====
-- The branches of the end of `sys_open_internal`.
use mp.Prelude.{
  ℕ, zero, suc, ◌+◌, ◌<◌, ◌≤◌, ◌≡◌, true, false, ◌==◌, none, some, ok, ◌>>=◌, arith, Bool-cases,
  inl, inr,
}
use mp.Prelude.Int.{pos, minus_one}
use mp.Param.{nofile, nfile}
use mp.Files.{File, Ftable, filealloc, fdalloc, set_file, set_ofile, find_fd, find_file}
use mp.Files.Counts.{fileclose_ok, closed}
use mp.Open.{Node, open_files, install, opened, refused}

pub find_file-some :
    (file : ℕ → File) (i left f : ℕ)
    → find_file file i left ≡ some f
    → ((file f).ref ≡ 0) × (i ≤ f) × (f < i + left)
unfolding find_file
find_file-some file i zero f h = cc
find_file-some file i (suc left) f h = elim (Bool-cases ((file i).ref == 0)) [
  | inl free ↦ let e : i ≡ f = ground arith in (ground arith, omega arith, omega arith)
  | inr used ↦
      let (a, b, c) = find_file-some file (i + 1) left f (ground arith) in
      (a, omega arith, omega arith)
]

filealloc_full : (t : Ftable) → find_file t.file 0 nfile ≡ none → filealloc t ≡ (none, t)
unfolding filealloc
filealloc_full t e = rw (e, filealloc)

filealloc_free :
    (t : Ftable) (i : ℕ)
    → find_file t.file 0 nfile ≡ some i
    → filealloc t ≡ (some i, set_file i (record (t.file i) { ref = 1 }) t)
unfolding filealloc
filealloc_free t i e = rw (e, filealloc)

fdalloc_full :
    (p f : ℕ) (t : Ftable) → find_fd (t.ofile p) 0 nofile ≡ none → fdalloc p f t ≡ (none, t)
unfolding fdalloc
fdalloc_full p f t e = rw (e, fdalloc)

fdalloc_free :
    (p f d : ℕ) (t : Ftable)
    → find_fd (t.ofile p) 0 nofile ≡ some d
    → fdalloc p f t ≡ (some d, set_ofile p d (some f) t)
unfolding fdalloc
fdalloc_free p f d t e = rw (e, fdalloc)

module _ (p omode : ℕ) (n : Node) (t : Ftable) where
  pub open_refused : refused omode n ≡ true → open_files p omode n t ≡ ok (minus_one, t)
  unfolding open_files
  open_refused h = rw (h, open_files)

  pub open_full :
      refused omode n ≡ false
      → find_file t.file 0 nfile ≡ none
      → open_files p omode n t ≡ ok (minus_one, t)
  unfolding open_files
  open_full h full = ground (arith, filealloc_full t full)

  pub open_found :
      (i : ℕ)
      → refused omode n ≡ false
      → find_file t.file 0 nfile ≡ some i
      → open_files p omode n t ≡ install p omode n i (set_file i (record (t.file i) { ref = 1 }) t)
  unfolding open_files
  open_found i h found = ground (arith, filealloc_free t i found)

  pub install_free :
      (f d : ℕ)
      → find_fd (t.ofile p) 0 nofile ≡ some d
      → install p omode n f t
        ≡ ok (pos d, set_file f (opened omode n (t.file f)) (set_ofile p d (some f) t))
  unfolding install
  install_free f d free = ground (arith, fdalloc_free p f d t free)

  pub install_full :
      (f : ℕ)
      → find_fd (t.ofile p) 0 nofile ≡ none
      → 0 < (t.file f).ref
      → install p omode n f t ≡ ok (minus_one, set_file f (closed (t.file f)) t)
  unfolding install ◌>>=◌
  install_full f full positive = ground (arith, fdalloc_full p f t full, fileclose_ok f t positive)

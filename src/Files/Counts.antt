-- ===== src/Files/Counts.antt =====
-- The reference count of an open file is the number of the descriptors that refer to it, with the
-- references that system calls in progress hold.
use mp.Prelude.{
  ℕ, zero, suc, ◌+◌, ◌-◌, ◌≤◌, ◌<◌, ◌≡◌, ◌≢◌, refl, ltb, if◌then◌else◌, Option, none, some, ok,
  ◌>>=◌, inl, inr, arith, Option-cases,
}
use mp.Prelude.Int.{ℤ, pos, minus_one}
use mp.Param.{nofile, nproc}
use mp.Files.{
  File, Ftable, Release, nothing, release_of, set_file, set_ofile, filedup, fileclose, find_fd,
  fdalloc, argfd, sys_dup, sys_close, dup_into, fd_none,
}
use mp.Files.Count.{count, count-set_ofile}

pub record IsCounted (held : ℕ → ℕ) (t : Ftable) : Type 0 where
  pub refs : (f : ℕ) → (t.file f).ref ≡ count t f + held f

pub find_fd-some :
    (o : ℕ → Option ℕ) (fd left n : ℕ)
    → find_fd o fd left ≡ some n
    → (o n ≡ none) × (fd ≤ n) × (n < fd + left)
unfolding find_fd
find_fd-some o fd zero n h = cc
find_fd-some o fd (suc left) n h = elim (Option-cases (o fd)) [
  | inl free ↦ let e : fd ≡ n = ground arith in (rw (← e) free, omega arith, omega arith)
  | inr (f, used) ↦
      let (a, b, c) = find_fd-some o (fd + 1) left n (ground arith) in (a, omega arith, omega arith)
]

argfd-some :
    (p : ℕ) (arg : ℤ) (t : Ftable) (fd f : ℕ)
    → argfd p arg t ≡ some (fd, f)
    → (t.ofile p fd ≡ some f) × (fd < nofile)
unfolding argfd
argfd-some p (pos n) t fd f h = ground arith
argfd-some p (ℤ.negsuc n) t fd f h = cc

-- A descriptor keeps the count of its file above 0.
pub referred :
    (t : Ftable) (p fd f : ℕ) → p < nproc → fd < nofile → t.ofile p fd ≡ some f → 0 < count t f
referred t p fd f hp hfd e = ground (arith, count-set_ofile t p fd none f hp hfd)

module _ {held : ℕ → ℕ} {t : Ftable} (c : IsCounted held t) where
  -- One more descriptor for a file that has a reference.
  pub after_dup :
      (p fd f : ℕ)
      → p < nproc
      → fd < nofile
      → t.ofile p fd ≡ none
      → 0 < (t.file f).ref
      → IsCounted held
          (set_file f (record (t.file f) { ref = (t.file f).ref + 1 }) (set_ofile p fd (some f) t))
  after_dup p fd f hp hfd free positive = record {
    refs = λ g. ground (arith, c.refs g, count-set_ofile t p fd (some f) g hp hfd);
  }

  pub after_close :
      (p fd f : ℕ)
      → p < nproc
      → fd < nofile
      → t.ofile p fd ≡ some f
      → (x : File) → x.ref + 1 ≡ (t.file f).ref
      → IsCounted held (set_file f x (set_ofile p fd none t))
  after_close p fd f hp hfd open_at x e = record {
    refs = λ g. ground (arith, c.refs g, count-set_ofile t p fd none g hp hfd);
  }

pub filedup_ok :
    (f : ℕ) (t : Ftable)
    → 0 < (t.file f).ref
    → filedup f t ≡ ok (set_file f (record (t.file f) { ref = (t.file f).ref + 1 }) t)
unfolding filedup
filedup_ok f t h = ground arith

abbrev pub closed : File → File
closed ff =
    if ltb 1 ff.ref then record ff { ref = ff.ref - 1 } else record ff { ref = 0; kind = fd_none }

abbrev pub released : File → Release
released ff = if ltb 1 ff.ref then nothing else release_of ff

pub fileclose_ok :
    (f : ℕ) (t : Ftable)
    → 0 < (t.file f).ref
    → fileclose f t ≡ ok (released (t.file f), set_file f (closed (t.file f)) t)
unfolding fileclose
fileclose_ok f t h = ground arith

pub ref-closed : (ff : File) → 0 < ff.ref → (closed ff).ref + 1 ≡ ff.ref
ref-closed ff h = ground arith

module _ (p : ℕ) where
  dup_full :
      (f : ℕ) (t : Ftable)
      → find_fd (t.ofile p) 0 nofile ≡ none
      → dup_into p f t ≡ ok (minus_one, t)
  unfolding fdalloc
  dup_full f t e = ground arith

  dup_free :
      (f fd : ℕ) (t : Ftable)
      → find_fd (t.ofile p) 0 nofile ≡ some fd
      → 0 < (t.file f).ref
      → dup_into p f t
        ≡ ok (
          pos fd,
          set_file f (record (t.file f) { ref = (t.file f).ref + 1 }) (set_ofile p fd (some f) t),
        )
  unfolding fdalloc ◌>>=◌
  dup_free f fd t e positive = ground (arith, filedup_ok f (set_ofile p fd (some f) t))

  dup_bad : (arg : ℤ) (t : Ftable) → argfd p arg t ≡ none → sys_dup p arg t ≡ ok (minus_one, t)
  unfolding sys_dup
  dup_bad arg t e = ground arith

  dup_good :
      (arg : ℤ) (t : Ftable) (fd f : ℕ)
      → argfd p arg t ≡ some (fd, f)
      → sys_dup p arg t ≡ dup_into p f t
  unfolding sys_dup
  dup_good arg t fd f e = rw (e, sys_dup)

  close_good :
      (arg : ℤ) (t : Ftable) (fd f : ℕ)
      → argfd p arg t ≡ some (fd, f)
      → 0 < (t.file f).ref
      → sys_close p arg t
        ≡ ok (pos 0, released (t.file f), set_file f (closed (t.file f)) (set_ofile p fd none t))
  unfolding sys_close ◌>>=◌
  close_good arg t fd f e positive =
      rw (e, sys_close, fileclose_ok f (set_ofile p fd none t) positive)

  close_bad :
      (arg : ℤ) (t : Ftable) → argfd p arg t ≡ none → sys_close p arg t ≡ ok (minus_one, nothing, t)
  unfolding sys_close
  close_bad arg t e = rw (e, sys_close)

module _ {held : ℕ → ℕ} (p : ℕ) (hp : p < nproc) where
  dup_into-IsCounted :
      (f : ℕ) (t : Ftable)
      → IsCounted held t
      → 0 < (t.file f).ref
      → (r : ℤ × Ftable) × (dup_into p f t ≡ ok r) × IsCounted held r.1
  dup_into-IsCounted f t c positive = elim (Option-cases (find_fd (t.ofile p) 0 nofile)) [
    | inl full ↦ ((minus_one, t), dup_full p f t full, c)
    | inr (fd, free) ↦
        let (unused, lo, hi) = find_fd-some (t.ofile p) 0 nofile fd free in
        (
          (
            pos fd,
            set_file f (record (t.file f) { ref = (t.file f).ref + 1 }) (set_ofile p fd (some f) t),
          ),
          dup_free p f fd t free positive,
          after_dup c p fd f hp (omega arith) unused positive,
        )
  ]

  -- Whatever its argument, `sys_dup` returns without a panic and leaves every count the number of
  -- references.
  pub sys_dup-IsCounted :
      (arg : ℤ) (t : Ftable)
      → IsCounted held t
      → (r : ℤ × Ftable) × (sys_dup p arg t ≡ ok r) × IsCounted held r.1
  sys_dup-IsCounted arg t c = elim (Option-cases (argfd p arg t)) [
    | inl bad ↦ ((minus_one, t), dup_bad p arg t bad, c)
    | inr ((fd, f), good) ↦
        let (open_at, lt) = argfd-some p arg t fd f good in
        rw (dup_good p arg t fd f good)
          (dup_into-IsCounted f t c (omega (arith, c.refs f, referred t p fd f hp lt open_at)))
  ]

  -- Whatever its argument, `sys_close` returns without a panic and leaves every count the number of
  -- references; it releases the object of the file only if no reference is left.
  pub sys_close-IsCounted :
      (arg : ℤ) (t : Ftable)
      → IsCounted held t
      → (r : ℤ × Release × Ftable) × (sys_close p arg t ≡ ok r)
        × IsCounted held r.2
        × ((f : ℕ) (fd : ℕ) → argfd p arg t ≡ some (fd, f) → r.1 ≢ nothing → (r.2.file f).ref ≡ 0)
  sys_close-IsCounted arg t c = elim (Option-cases (argfd p arg t)) [
    | inl bad ↦ ((minus_one, nothing, t), close_bad p arg t bad, c, λ f fd e ne. absurd (ne refl))
    | inr ((fd, f), good) ↦
        let (open_at, lt) = argfd-some p arg t fd f good in
        let positive : 0 < (t.file f).ref =
          omega (arith, c.refs f, referred t p fd f hp lt open_at) in
        (
          (pos 0, released (t.file f), set_file f (closed (t.file f)) (set_ofile p fd none t)),
          close_good p arg t fd f good positive,
          after_close c p fd f hp lt open_at (closed (t.file f)) (ref-closed (t.file f) positive),
          λ g gd e ne. ground arith,
        )
  ]

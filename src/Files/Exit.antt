-- ===== src/Files/Exit.antt =====
-- The files that `exit` of kernel/proc.c closes.
use mp.Prelude.{
  ℕ, zero, suc, ◌+◌, ◌≤◌, ◌<◌, ◌≡◌, refl, ◌∙◌, ◌==◌, none, some, List, [], ◌∷◌, ok, ◌>>=◌, inl, inr,
  arith, Bool-cases, Option-cases,
}
use mp.Param.{nofile, nproc}
use mp.Files.{Ftable, Release, set_file, set_ofile, exit_files}
use mp.Files.Counts.{IsCounted, after_close, closed, released, ref-closed, fileclose_ok, referred}

module _ (p fd left : ℕ) (t : Ftable) where
  exit_skip : t.ofile p fd ≡ none → exit_files p fd (suc left) t ≡ exit_files p (fd + 1) left t
  unfolding exit_files
  exit_skip e = ground arith

  exit_close :
      (f : ℕ)
      → t.ofile p fd ≡ some f
      → 0 < (t.file f).ref
      → exit_files p fd (suc left) t ≡ (
          exit_files p (fd + 1) left (set_ofile p fd none (set_file f (closed (t.file f)) t))
          >>= λ (rs, t''). ok (released (t.file f) ∷ rs, t''))
  unfolding exit_files ◌>>=◌
  exit_close f e positive = rw (e, exit_files, fileclose_ok f t positive)

  exit_closed :
      (f : ℕ) (r : List Release × Ftable)
      → t.ofile p fd ≡ some f
      → 0 < (t.file f).ref
      → exit_files p (fd + 1) left (set_ofile p fd none (set_file f (closed (t.file f)) t)) ≡ ok r
      → exit_files p fd (suc left) t ≡ ok (released (t.file f) ∷ r.0, r.1)
  unfolding ◌>>=◌
  exit_closed f r e positive run = exit_close f e positive ∙ rw (run)

-- The loop of `exit` from `fd` on.
exit_files-from :
    {held : ℕ → ℕ} (p fd left : ℕ) (t : Ftable)
    → p < nproc
    → fd + left ≡ nofile
    → IsCounted held t
    → (r : List Release × Ftable) × (exit_files p fd left t ≡ ok r)
      × IsCounted held r.1
      × ((n : ℕ) → fd ≤ n → n < nofile → r.1.ofile p n ≡ none)
      × ((n : ℕ) → n < fd → r.1.ofile p n ≡ t.ofile p n)
exit_files-from p fd zero t hp e c =
    (([], t), unfold exit_files in refl, c, λ n lo hi. absurd (omega arith), λ n lt. refl)
exit_files-from {held} p fd (suc left) t hp e c = elim (Option-cases (t.ofile p fd)) [
  | inl unused ↦
      let (r, run, c', gone, below) =
        exit_files-from {held = held} p (fd + 1) left t hp (omega arith) c in
      (
        r,
        exit_skip p fd left t unused ∙ run,
        c',
        λ n lo hi. elim (Bool-cases (fd == n)) [
          | inl here ↦ let q : fd ≡ n = ground arith in rw (← q) (below fd (omega arith) ∙ unused)
          | inr later ↦ gone n (ground arith) hi
        ],
        λ n lt. below n (omega arith),
      )
  | inr (f, open_at) ↦
      let positive : 0 < (t.file f).ref =
        omega (arith, c.refs f, referred t p fd f hp (omega arith) open_at) in
      let t1 : Ftable = set_ofile p fd none (set_file f (closed (t.file f)) t) in
      let (r, run, c', gone, below) =
        exit_files-from {held = held} p (fd + 1) left t1 hp (omega arith) (
          after_close c p fd f hp (omega arith) open_at (closed (t.file f))
            (ref-closed (t.file f) positive)) in
      (
        (released (t.file f) ∷ r.0, r.1),
        exit_closed p fd left t f r open_at positive run,
        c',
        λ n lo hi. elim (Bool-cases (fd == n)) [
          | inl here ↦ let q : fd ≡ n = ground arith in ground (arith, below fd)
          | inr later ↦ gone n (ground arith) hi
        ],
        λ n lt. ground (arith, below n),
      )
]

-- `exit` closes every open file of the process, without a panic: no descriptor is left, and every
-- count stays the number of references.
pub exit_files-IsCounted :
    {held : ℕ → ℕ} (p : ℕ) (t : Ftable)
    → p < nproc
    → IsCounted held t
    → (r : List Release × Ftable) × (exit_files p 0 nofile t ≡ ok r)
      × IsCounted held r.1
      × ((n : ℕ) → n < nofile → r.1.ofile p n ≡ none)
exit_files-IsCounted {held} p t hp c =
    let (r, run, c', gone, below) = exit_files-from {held = held} p 0 nofile t hp (omega arith) c in
    (r, run, c', λ n lt. gone n (omega arith) lt)

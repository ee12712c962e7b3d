-- ===== src/Files/Count.antt =====
-- How many descriptors refer to a file.
use mp.Prelude.{
  ℕ, zero, suc, ◌+◌, ◌≤◌, ◌<◌, ◌≡◌, refl, ◌==◌, if◌then◌else◌, Option, none, some, arith,
  Bool-cases, inl, inr,
}
use mp.Prelude.Update.{update}
use mp.Param.{nofile, nproc}
use mp.Files.{Ftable, set_ofile}

abbrev pub one : Option ℕ → ℕ → ℕ
one none f = 0
one (some g) f = if g == f then 1 else 0

module _ (f : ℕ) where
  unfoldable pub cells : (ℕ → Option ℕ) → ℕ → ℕ
  cells o zero = 0
  cells o (suc n) = cells o n + one (o n) f

  unfoldable pub rows : (ℕ → ℕ → Option ℕ) → ℕ → ℕ
  rows o zero = 0
  rows o (suc n) = rows o n + cells (o n) nofile

  cells-update_above :
      (o : ℕ → Option ℕ) (i : ℕ) (x : Option ℕ) (n : ℕ) → n ≤ i → cells (update o i x) n ≡ cells o n
  unfolding cells
  cells-update_above o i x zero h = refl
  cells-update_above o i x (suc n) h = ground (arith, cells-update_above o i x n)

  cells-update :
      (o : ℕ → Option ℕ) (i : ℕ) (x : Option ℕ) (n : ℕ)
      → i < n
      → cells (update o i x) n + one (o i) f ≡ cells o n + one x f
  unfolding cells
  cells-update o i x zero h = absurd (omega arith)
  cells-update o i x (suc n) h = elim (Bool-cases (i == n)) [
    | inl last ↦
        let e : i ≡ n = ground arith in
        let above = cells-update_above o i x n (omega arith) in rw (e, above) (ground arith)
    | inr below ↦ let ih = cells-update o i x n (ground arith) in rw below (omega (arith, ih))
  ]

  rows-update_above :
      (o : ℕ → ℕ → Option ℕ) (i : ℕ) (x : ℕ → Option ℕ) (n : ℕ)
      → n ≤ i
      → rows (update o i x) n ≡ rows o n
  unfolding rows
  rows-update_above o i x zero h = refl
  rows-update_above o i x (suc n) h = ground (arith, rows-update_above o i x n)

  rows-update :
      (o : ℕ → ℕ → Option ℕ) (i : ℕ) (x : ℕ → Option ℕ) (n : ℕ)
      → i < n
      → rows (update o i x) n + cells (o i) nofile ≡ rows o n + cells x nofile
  unfolding rows
  rows-update o i x zero h = absurd (omega arith)
  rows-update o i x (suc n) h = elim (Bool-cases (i == n)) [
    | inl last ↦
        let e : i ≡ n = ground arith in
        let above = rows-update_above o i x n (omega arith) in ground (arith, above)
    | inr below ↦ let ih = rows-update o i x n (ground arith) in rw below (omega (arith, ih))
  ]

-- The descriptors of all processes that refer to `f`.
abbrev pub count : Ftable → ℕ → ℕ
count t f = rows f t.ofile nproc

pub count-set_ofile :
    (t : Ftable) (p fd : ℕ) (x : Option ℕ) (f : ℕ)
    → p < nproc
    → fd < nofile
    → count (set_ofile p fd x t) f + one (t.ofile p fd) f ≡ count t f + one x f
count-set_ofile t p fd x f hp hfd = omega (
  arith,
  rows-update f t.ofile p (update (t.ofile p) fd x) nproc hp,
  cells-update f (t.ofile p) fd x nofile hfd,
)

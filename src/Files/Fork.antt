-- ===== src/Files/Fork.antt =====
-- The files that a child of `fork` shares with its parent, in kernel/proc.c.
use mp.Prelude.{
  ℕ, zero, suc, ◌+◌, ◌≤◌, ◌<◌, ◌≡◌, ◌≢◌, refl, sym, ◌∙◌, ◌==◌, none, some, ok, ◌>>=◌, inl, inr,
  arith, Bool-cases, Option-cases,
}
use mp.Param.{nofile, nproc}
use mp.Files.{File, Ftable, set_file, set_ofile, fork_files}
use mp.Files.Counts.{IsCounted, after_dup, filedup_ok, referred}

-- What the loop of `fork` has done from descriptor `fd` on.
record Forked (held : ℕ → ℕ) (p np fd : ℕ) (t t' : Ftable) : Type 0 where
  counted : IsCounted held t'
  copied : (n : ℕ) → fd ≤ n → n < nofile → t'.ofile np n ≡ t.ofile p n
  below : (n : ℕ) → n < fd → t'.ofile np n ≡ t.ofile np n
  parent : t'.ofile p ≡ t.ofile p

module _ (p np fd left : ℕ) (t : Ftable) where
  fork_skip :
      t.ofile p fd ≡ none → fork_files p np fd (suc left) t ≡ fork_files p np (fd + 1) left t
  unfolding fork_files
  fork_skip e = ground arith

  fork_share :
      (f : ℕ)
      → t.ofile p fd ≡ some f
      → 0 < (t.file f).ref
      → fork_files p np fd (suc left) t
        ≡ fork_files p np (fd + 1) left (
            set_ofile np fd
              (some f)
              (set_file f (record (t.file f) { ref = (t.file f).ref + 1 }) t))
  unfolding fork_files ◌>>=◌
  fork_share f e positive = ground (arith, filedup_ok f t positive)

Forked-skip :
    (held : ℕ → ℕ) (p np fd : ℕ) (t t' : Ftable)
    → t.ofile p fd ≡ none
    → t.ofile np fd ≡ none
    → Forked held p np (fd + 1) t t'
    → Forked held p np fd t t'
Forked-skip held p np fd t t' unused free d = record {
  counted = d.counted;
  copied = λ n lo hi. elim (Bool-cases (fd == n)) [
    | inl here ↦
        let e : fd ≡ n = ground arith in rw (← e) (d.below fd (omega arith) ∙ free ∙ sym unused)
    | inr later ↦ d.copied n (ground arith) hi
  ];
  below = λ n lt. d.below n (omega arith);
  parent = d.parent;
}

Forked-share :
    (held : ℕ → ℕ) (p np fd f : ℕ) (x : File) (t t' : Ftable)
    → p ≢ np
    → t.ofile p fd ≡ some f
    → Forked held p np (fd + 1) (set_ofile np fd (some f) (set_file f x t)) t'
    → Forked held p np fd t t'
Forked-share held p np fd f x t t' ne open_at d = record {
  counted = d.counted;
  copied = λ n lo hi. elim (Bool-cases (fd == n)) [
    | inl here ↦ let e : fd ≡ n = ground arith in ground (arith, d.below fd)
    | inr later ↦ ground (arith, d.copied n)
  ];
  below = λ n lt. ground (arith, d.below n);
  parent = ground (arith, d.parent);
}

fork_files-Forked :
    {held : ℕ → ℕ} (p np fd left : ℕ) (t : Ftable)
    → p < nproc
    → np < nproc
    → p ≢ np
    → fd + left ≡ nofile
    → ((n : ℕ) → fd ≤ n → t.ofile np n ≡ none)
    → IsCounted held t
    → (t' : Ftable) × (fork_files p np fd left t ≡ ok t') × Forked held p np fd t t'
fork_files-Forked p np fd zero t hp hnp ne e free c = (
  t,
  unfold fork_files in refl,
  record {
    counted = c;
    copied = λ n lo hi. absurd (omega arith);
    below = λ n lt. refl;
    parent = refl;
  },
)
fork_files-Forked {held} p np fd (suc left) t hp hnp ne e free c =
    elim (Option-cases (t.ofile p fd)) [
      | inl unused ↦
          let (t', run, d) =
            fork_files-Forked {held = held} p np (fd + 1) left t hp hnp ne (omega arith)
              (λ n lo. free n (omega arith)) c in
          (
            t',
            fork_skip p np fd left t unused ∙ run,
            Forked-skip held p np fd t t' unused (free fd (omega arith)) d,
          )
      | inr (f, open_at) ↦
          let positive : 0 < (t.file f).ref =
            omega (arith, c.refs f, referred t p fd f hp (omega arith) open_at) in
          let x : File = record (t.file f) { ref = (t.file f).ref + 1 } in
          let (t', run, d) =
            fork_files-Forked {held = held} p np (fd + 1) left
              (set_ofile np fd (some f) (set_file f x t)) hp hnp ne (omega arith)
              (λ n lo. ground (arith, free n))
              (after_dup c np fd f hnp (omega arith) (free fd (omega arith)) positive) in
          (
            t',
            fork_share p np fd left t f open_at positive ∙ run,
            Forked-share held p np fd f x t t' ne open_at d,
          )
    ]

-- `fork` gives a child that has no open file the descriptors of its parent, without a panic; the
-- parent keeps its own, and every count stays the number of references.
pub fork_files-IsCounted :
    {held : ℕ → ℕ} (p np : ℕ) (t : Ftable)
    → p < nproc
    → np < nproc
    → p ≢ np
    → ((n : ℕ) → t.ofile np n ≡ none)
    → IsCounted held t
    → (t' : Ftable) × (fork_files p np 0 nofile t ≡ ok t')
      × IsCounted held t'
      × ((n : ℕ) → n < nofile → t'.ofile np n ≡ t.ofile p n)
      × (t'.ofile p ≡ t.ofile p)
fork_files-IsCounted {held} p np t hp hnp ne free c =
    let (t', run, d) =
      fork_files-Forked {held = held} p np 0 nofile t hp hnp ne (omega arith) (λ n lo. free n) c in
    (t', run, d.counted, λ n lt. d.copied n (omega arith) lt, d.parent)

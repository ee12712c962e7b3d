-- ===== src/Open/Counted.antt =====
-- `open` and the reference counts of the open files.
use mp.Prelude.{
  ℕ, ◌<◌, ◌≡◌, ◌∙◌, none, some, ok, arith, Bool-cases, Option-cases, inl, inr, refl, ap, true,
  false, ◌&&◌, ◌==◌, ◌>>=◌,
}
use mp.Prelude.Int.{ℤ, pos, minus_one, eqb, ltz, decr}
use mp.Prelude.Update.{update_self}
use mp.Param.{nofile, nfile, nproc}
use mp.Files.{File, Ftable, set_file, set_ofile, find_fd, find_file}
use mp.Files.Count.{count-set_ofile}
use mp.Files.Counts.{IsCounted, closed, find_fd-some}
use mp.Inode.{Icache, set_inode, iunlock, iput, iunlockput}
use mp.Log.{Log, end_op}
use mp.Open.{Node, open_files, open_node, opened, refused, truncates, truncate, leave_inode}
use mp.Open.Branches.{
  find_file-some, open_refused, open_full, open_found, install_free, install_full,
}

-- A file that no descriptor leads to, taken and closed again.
undone-IsCounted :
    {held : ℕ → ℕ} (i : ℕ) (t : Ftable)
    → IsCounted held t
    → (t.file i).ref ≡ 0
    → let u = set_file i (record (t.file i) { ref = 1 }) t in
      IsCounted held (set_file i (closed (u.file i)) u)
undone-IsCounted i t c free = record { refs = λ g. ground (arith, c.refs g) }

ref-opened : (omode : ℕ) (n : Node) (f : File) → (opened omode n f).ref ≡ f.ref
unfolding opened
ref-opened omode n f = ground arith

-- A file that was free, with its only descriptor.
opened-IsCounted :
    {held : ℕ → ℕ} (p d i : ℕ) (t : Ftable) (x : File)
    → p < nproc
    → d < nofile
    → IsCounted held t
    → (t.file i).ref ≡ 0
    → t.ofile p d ≡ none
    → x.ref ≡ 1
    → let u = set_file i (record (t.file i) { ref = 1 }) t in
      IsCounted held (set_file i x (set_ofile p d (some i) u))
opened-IsCounted p d i t x hp hd c free unused one_ref = record {
  refs = λ g. ground (arith, c.refs g, count-set_ofile t p d (some i) g hp hd);
}

open_files-IsCounted :
    {held : ℕ → ℕ} (p omode : ℕ) (n : Node) (t : Ftable)
    → p < nproc
    → IsCounted held t
    → (r : ℤ × Ftable) × (open_files p omode n t ≡ ok r) × IsCounted held r.1
open_files-IsCounted p omode n t hp c = elim (Bool-cases (refused omode n)) [
  | inl bad ↦ ((minus_one, t), open_refused p omode n t bad, c)
  | inr good ↦ elim (Option-cases (find_file t.file 0 nfile)) [
    | inl full ↦ ((minus_one, t), open_full p omode n t good full, c)
    | inr (i, found) ↦
        let (free, lo, hi) = find_file-some t.file 0 nfile i found in
        let u = set_file i (record (t.file i) { ref = 1 }) t in
        let first = open_found p omode n t i good found in
        elim (Option-cases (find_fd (u.ofile p) 0 nofile)) [
          | inl none_left ↦ (
            (minus_one, set_file i (closed (u.file i)) u),
            first ∙ install_full p omode n u i none_left (ground arith),
            undone-IsCounted i t c free,
          )
          | inr (d, slot) ↦
              let (unused, dlo, dhi) = find_fd-some (u.ofile p) 0 nofile d slot in
              (
                (pos d, set_file i (opened omode n (u.file i)) (set_ofile p d (some i) u)),
                first ∙ install_free p omode n u i d slot,
                opened-IsCounted p d i t (opened omode n (u.file i)) hp (omega arith) c free unused
                    (ref-opened omode n (u.file i) ∙ ground arith),
              )
        ]
  ]
]

-- The inode that `open` has locked and holds a reference to.
pub record IsHeld (i : ℕ) (s : Icache) : Type 0 where
  pub locked : (s.inode i).locked ≡ true
  pub held : ltz (s.inode i).ref (pos 1) ≡ false

iunlock_ok :
    (i : ℕ) (s : Icache)
    → IsHeld i s
    → (s' : Icache) × (iunlock i s ≡ ok s') × ((s'.inode i).locked ≡ false)
unfolding iunlock
iunlock_ok i s h = (
  set_inode i (record (s.inode i) { locked = false }) s,
  rw (h.locked, h.held) refl,
  ap (λ x. x.locked) (update_self s.inode i (record (s.inode i) { locked = false })),
)

iput_locked : (i : ℕ) (s : Icache) → ((iput i s).inode i).locked ≡ (s.inode i).locked
unfolding iput
iput_locked i s =
    let ip = s.inode i in
    elim (Bool-cases (eqb ip.ref (pos 1) && ip.valid && (ip.nlink == 0))) [
      | inl q ↦ rw q (
          ap (λ x. x.locked)
            (update_self s.inode i (record ip { type = 0; valid = false; ref = decr ip.ref })))
      | inr q ↦ rw q (ap (λ x. x.locked) (update_self s.inode i (record ip { ref = decr ip.ref })))
    ]

truncate-IsHeld : (i : ℕ) (s : Icache) → IsHeld i s → IsHeld i (truncate i s)
unfolding truncate
truncate-IsHeld i s h = record { locked = h.locked; held = h.held }

leave_ok :
    (omode : ℕ) (n : Node) (r : ℤ) (s : Icache)
    → IsHeld n.ip s
    → (s' : Icache) × (leave_inode omode n r s ≡ ok s') × ((s'.inode n.ip).locked ≡ false)
unfolding leave_inode iunlockput ◌>>=◌
leave_ok omode n r s h = elim (Bool-cases (ltz r (pos 0))) [
  | inl bad ↦
      let (s1, e, u) = iunlock_ok n.ip s h in
      (iput n.ip s1, rw (bad, e) refl, iput_locked n.ip s1 ∙ u)
  | inr good ↦ elim (Bool-cases (truncates omode n)) [
    | inl cut ↦
        let (s1, e, u) = iunlock_ok n.ip (truncate n.ip s) (truncate-IsHeld n.ip s h) in
        (s1, rw (good, cut) e, u)
    | inr whole ↦ let (s1, e, u) = iunlock_ok n.ip s h in (s1, rw (good, whole) e, u)
  ]
]

open_node_ok :
    (p omode : ℕ) (n : Node) (t t' : Ftable) (s s' : Icache) (l l' : Log) (r : ℤ)
    → open_files p omode n t ≡ ok (r, t')
    → leave_inode omode n r s ≡ ok s'
    → end_op l ≡ ok l'
    → open_node p omode n t s l ≡ ok (r, t', s', l')
unfolding open_node ◌>>=◌
open_node_ok p omode n t t' s s' l l' r e f g = rw (e, f, g) refl

-- Whatever the flags and the inode, which `open` has locked and holds, the end of `open` returns without
-- a panic where the commit of its `end_op` does, also where the table of files or the descriptors of the
-- process are used up: every count stays the number of references, and the inode is unlocked. The blocks
-- that `itrunc` gives back are not part of this.
pub open_node-IsCounted :
    {held : ℕ → ℕ} (p omode : ℕ) (n : Node) (t : Ftable) (s : Icache) (l l' : Log)
    → p < nproc
    → IsCounted held t
    → IsHeld n.ip s
    → end_op l ≡ ok l'
    → (r : ℤ) × (t' : Ftable) × (s' : Icache) × (open_node p omode n t s l ≡ ok (r, t', s', l'))
      × IsCounted held t'
      × ((s'.inode n.ip).locked ≡ false)
open_node-IsCounted p omode n t s l l' hp c h g =
    let ((r, t'), e, c') = open_files-IsCounted p omode n t hp c in
    let (s', f, u) = leave_ok omode n r s h in
    (r, t', s', open_node_ok p omode n t t' s s' l l' r e f g, c', u)

-- ===== src/Open/Permission.antt =====
-- Access modes: what an open file may be used for.
use mp.Prelude.{
  ℕ, ◌≡◌, ◌≢◌, sym, ◌∙◌, true, false, ◌<◌, some, Outcome, ok, arith, Bool-cases, Option-cases, inl,
  inr, >>=-eq-ok,
}
use mp.Prelude.Int.{ℤ, pos, minus_one}
use mp.Inode.{t_dir, t_symlink, Icache}
use mp.Log.{Log, end_op}
use mp.Files.{File, Ftable, set_file, set_ofile, find_fd, find_file}
use mp.Param.{nofile, nfile}
use mp.Files.Counts.{closed}
use mp.Open.Branches.{open_refused, open_full, open_found, install_free, install_full}
use mp.Open.{
  Node, open_files, open_node, leave_inode, install, opened, refused, passes, m_read, m_write,
  o_create, o_noaccess,
}

abbrev answer : ℤ → Ftable → Outcome (ℤ × Ftable)
answer r t = ok (r, t)

not_error : (x t' : Ftable) (fd : ℕ) → answer minus_one x ≢ answer (pos fd) t'
not_error x t' fd h = cc

same_result :
    (d fd : ℕ) (x t' : Ftable) → answer (pos d) x ≡ answer (pos fd) t' → (d ≡ fd) × (x ≡ t')
same_result d fd x t' h = (ground arith, ground arith)

installed :
    (p omode f d : ℕ) (n : Node) (t : Ftable)
    → let t' = set_file f (opened omode n (t.file f)) (set_ofile p d (some f) t) in
      (t'.ofile p d ≡ some f) × (t'.file f ≡ opened omode n (t.file f))
installed p omode f d n t = (ground arith, ground arith)

install_file :
    (p omode fd f : ℕ) (n : Node) (t t' : Ftable)
    → 0 < (t.file f).ref
    → install p omode n f t ≡ ok (pos fd, t')
    → (t'.ofile p fd ≡ some f) × (t'.file f ≡ opened omode n (t.file f))
install_file p omode fd f n t t' positive h = elim (Option-cases (find_fd (t.ofile p) 0 nofile)) [
  | inl full ↦
      let q = install_full p omode n t f full positive in
      absurd (not_error (set_file f (closed (t.file f)) t) t' fd (sym q ∙ h))
  | inr (d, free) ↦
      let q = install_free p omode n t f d free in
      let x = set_file f (opened omode n (t.file f)) (set_ofile p d (some f) t) in
      let (ed, et) = same_result d fd x t' (sym q ∙ h) in
      rw (← et, ← ed) (installed p omode f d n t)
]

-- A successful `open` is one of an inode that was not refused, and its descriptor leads to a file
-- with the fields that `opened` sets.
open_files_file :
    (p omode fd : ℕ) (n : Node) (t t' : Ftable)
    → open_files p omode n t ≡ ok (pos fd, t')
    → (refused omode n ≡ false)
      × ((f : ℕ) × (old : File) × (t'.ofile p fd ≡ some f) × (t'.file f ≡ opened omode n old))
open_files_file p omode fd n t t' h = elim (Bool-cases (refused omode n)) [
  | inl bad ↦ absurd (not_error t t' fd (sym (open_refused p omode n t bad) ∙ h))
  | inr good ↦ elim (Option-cases (find_file t.file 0 nfile)) [
    | inl full ↦ absurd (not_error t t' fd (sym (open_full p omode n t good full) ∙ h))
    | inr (i, found) ↦
        let u = set_file i (record (t.file i) { ref = 1 }) t in
        let (leads, e) =
          install_file p omode fd i n u t' (ground arith)
            (sym (open_found p omode n t i good found) ∙ h) in
        (good, (i, u.file i, leads, e))
  ]
]

open_node-files :
    (p omode fd : ℕ) (n : Node) (t t' : Ftable) (s s' : Icache) (l l' : Log)
    → open_node p omode n t s l ≡ ok (pos fd, t', s', l')
    → open_files p omode n t ≡ ok (pos fd, t')
unfolding open_node
open_node-files p omode fd n t t' s s' l l' h =
    let ((r, u), e, h1) = >>=-eq-ok (open_files p omode n t) _ h in
    let (s1, _, h2) = >>=-eq-ok (leave_inode omode n r s) _ h1 in
    let (l1, _, h3) = >>=-eq-ok (end_op l) _ h2 in
    let q : answer r u ≡ answer (pos fd) t' = cc in e ∙ q

-- A file that `open` gave without O_CREATE and O_NOACCESS is readable only with M_READ in the mode of
-- the inode, and writable only with M_WRITE and if the inode is no directory. With O_NOACCESS it is
-- neither, unless the inode is a symbolic link.
pub open_permission :
    (p omode fd : ℕ) (n : Node) (t t' : Ftable) (s s' : Icache) (l l' : Log)
    → open_node p omode n t s l ≡ ok (pos fd, t', s', l')
    → (f : ℕ) × (t'.ofile p fd ≡ some f)
      × ((t'.file f).ip ≡ n.ip)
      × (o_create omode ≡ false
          → o_noaccess omode ≡ false
          → ((t'.file f).readable ≡ true → m_read n.mode ≡ true)
            × ((t'.file f).writable ≡ true → (m_write n.mode ≡ true) × (n.type ≢ t_dir)))
      × (o_noaccess omode ≡ true
          → n.type ≢ t_symlink
          → ((t'.file f).readable ≡ false) × ((t'.file f).writable ≡ false))
open_permission p omode fd n t t' s s' l l' h =
    let (ok_node, (f, old, leads, e)) =
      open_files_file p omode fd n t t' (open_node-files p omode fd n t t' s s' l l' h) in
    (
      f,
      leads,
      (unfold opened in rw e),
      (λ plain access.
          (unfold opened refused passes in
            (
              (λ r. ground (arith, e, ok_node)),
              λ w. (ground (arith, e, ok_node), ground (arith, e, ok_node)),
            ))),
      (λ hidden other. (unfold opened in (rw e (ground arith), rw e (ground arith)))),
    )

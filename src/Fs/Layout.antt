-- ===== src/Fs/Layout.antt =====
-- kernel/fs.c: the blocks of a file lie apart, and stay so when `balloc` takes one more.
use mp.Prelude.{
  ℕ, ◌+◌, ◌-◌, ◌*◌, ◌^◌, ◌<◌, ◌≡◌, sym, ap, ◌∙◌, subst, ◌≢◌, inl, inr, true, false, arith, ltb,
  ◌==◌, if◌then◌else◌, ==→eq, ==→ne, Bool-cases,
}
use mp.Prelude.Update.{update, update_ne}
use mp.Words.{read_u32}
use mp.Fs.{Superblock, Disk, bblock}
use mp.Fs.Bitmap.{used, IsLaidOut, IsAllocated}
use mp.Fs.Content.{ndirect, nindirect, iblock, File}

-- What a block is for the file: `bn + 1` for its block `bn`, 300 for the indirect block, 0 otherwise.
abbrev pub indirect_role : ℕ
indirect_role = 300

-- The address of the block `bn` of the file: 0 if there is none.
abbrev pub addr_at : File → ℕ → ℕ
addr_at f bn =
    if ltb bn ndirect
    then f.ip.addrs bn
    else if f.ip.addrs ndirect == 0
    then 0
    else read_u32 (f.disk (f.ip.addrs ndirect)) (4 * (bn - ndirect))

-- The map covers its own blocks and block 0, and no block of the file is one of the map or the block of
-- the inode.
pub record IsPlaced (sb : Superblock) (role : ℕ → ℕ) (inum : ℕ) (d : Disk) : Type 0 where
  pub small : sb.size < 2 ^ 32
  pub laid : IsLaidOut sb d
  pub inside : (n : ℕ) → n < sb.size → bblock n sb < sb.size
  pub boot : used sb d 0 ≡ true
  pub zero_role : role 0 ≡ 0
  pub taken : (b : ℕ) → role b ≢ 0 → (b < sb.size) × (used sb d b ≡ true)
  pub no_map : (n : ℕ) → n < sb.size → role (bblock n sb) ≡ 0
  pub no_inode : role (iblock inum sb) ≡ 0
  pub inode_apart : (n : ℕ) → n < sb.size → bblock n sb ≢ iblock inum sb
  pub inode_taken : (iblock inum sb < sb.size) × (used sb d (iblock inum sb) ≡ true)

pub record IsFile (sb : Superblock) (role : ℕ → ℕ) (f : File) : Type 0 where
  pub placed : IsPlaced sb role f.ip.inum f.disk
  pub direct : (bn : ℕ) → bn < ndirect → f.ip.addrs bn ≢ 0 → role (f.ip.addrs bn) ≡ bn + 1
  pub indirect : f.ip.addrs ndirect ≢ 0 → role (f.ip.addrs ndirect) ≡ indirect_role
  pub data_blocks :
      (k : ℕ)
      → k < nindirect
      → f.ip.addrs ndirect ≢ 0
      → read_u32 (f.disk (f.ip.addrs ndirect)) (4 * k) ≢ 0
      → role (read_u32 (f.disk (f.ip.addrs ndirect)) (4 * k)) ≡ ndirect + k + 1

-- What `balloc` of the block `n` does to a disk with the file.
pub allocated-IsPlaced :
    (sb : Superblock) (role : ℕ → ℕ) (inum : ℕ) (d d' : Disk) (n r : ℕ)
    → IsPlaced sb role inum d
    → IsAllocated sb d n d'
    → IsPlaced sb (update role n r) inum d'
allocated-IsPlaced sb role inum d d' n r h a =
    let ne_map : (m : ℕ) → m < sb.size → n ≢ bblock m sb = λ m hm e.
      true_ne_false (sym (subst (λ x. used sb d x ≡ true) (sym e) (h.laid m hm)) ∙ a.was_free) in
    let ne_inode : n ≢ iblock inum sb = λ e.
      true_ne_false (sym (subst (λ x. used sb d x ≡ true) (sym e) h.inode_taken.1) ∙ a.was_free) in
    let ne_zero : n ≢ 0 =
      λ e. true_ne_false (sym (subst (λ x. used sb d x ≡ true) (sym e) h.boot) ∙ a.was_free) in
    let stays : (m : ℕ) → m < sb.size → used sb d m ≡ true → used sb d' m ≡ true = λ m hm u.
      elim (Bool-cases (m == n)) [
        | inl q ↦ subst (λ x. used sb d' x ≡ true) (sym (==→eq m n q)) a.now_used
        | inr q ↦ a.others m hm (==→ne m n q) ∙ u
      ] in
    record {
      small = h.small;
      laid = λ m hm. stays (bblock m sb) (h.inside m hm) (h.laid m hm);
      inside = h.inside;
      boot = stays 0 (omega (arith, a.in_range)) h.boot;
      zero_role = update_ne role n 0 r ne_zero ∙ h.zero_role;
      taken = λ b ne. elim (Bool-cases (n == b)) [
        | inl q ↦
            let e : n ≡ b = ==→eq n b q in
            subst (λ x. (x < sb.size) × (used sb d' x ≡ true)) e (a.in_range, a.now_used)
        | inr q ↦
            let t = h.taken b (λ z. ne (update_ne role n b r (==→ne n b q) ∙ z)) in
            (t.0, stays b t.0 t.1)
      ];
      no_map = λ m hm. update_ne role n (bblock m sb) r (ne_map m hm) ∙ h.no_map m hm;
      no_inode = update_ne role n (iblock inum sb) r ne_inode ∙ h.no_inode;
      inode_apart = h.inode_apart;
      inode_taken = (h.inode_taken.0, stays (iblock inum sb) h.inode_taken.0 h.inode_taken.1);
    }
  where
    true_ne_false : true ≡ false → ⊥
    true_ne_false e = cc

-- The block that `balloc` takes was no block of the file, and every block of the file stays.
pub record IsFresh (sb : Superblock) (role : ℕ → ℕ) (d d' : Disk) (n : ℕ) : Type 0 where
  pub unused : role n ≡ 0
  pub not_zero : n ≢ 0
  pub keeps : (b : ℕ) → role b ≢ 0 → d' b ≡ d b

pub allocated-IsFresh :
    (sb : Superblock) (role : ℕ → ℕ) (inum : ℕ) (d d' : Disk) (n : ℕ)
    → IsPlaced sb role inum d
    → IsAllocated sb d n d'
    → IsFresh sb role d d' n
allocated-IsFresh sb role inum d d' n h a =
    let out : role n ≡ 0 = elim (Bool-cases (role n == 0)) [
      | inl q ↦ ==→eq (role n) 0 q
      | inr q ↦ absurd (true_ne_false (sym (h.taken n (==→ne (role n) 0 q)).1 ∙ a.was_free))
    ] in
    record {
      unused = out;
      not_zero =
          λ e. true_ne_false (sym (subst (λ x. used sb d x ≡ true) (sym e) h.boot) ∙ a.was_free);
      keeps = λ b ne.
          a.untouched b (λ e. ne (ap role e ∙ out)) (λ e. ne (ap role e ∙ h.no_map n a.in_range));
    }
  where
    true_ne_false : true ≡ false → ⊥
    true_ne_false e = cc

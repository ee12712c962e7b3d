-- ===== src/Fs/Dinode.antt =====
-- kernel/fs.c: the inode on disk as `iupdate` stores it and `ilock` reads it.
use mp.Prelude.{
  ℕ, ◌+◌, ◌*◌, ◌/◌, ◌%◌, ◌^◌, ◌≤◌, ◌<◌, ◌≡◌, refl, sym, ap, ◌∙◌, subst, ◌≢◌, ◌⊎◌, inl, inr, arith,
  ltb, ◌==◌, ==→eq, ==→ne, Bool-cases,
}
use mp.Prelude.Update.{update_self, update_ne}
use mp.Words.{Bytes, read_u32, write_u32, read_u16, write_u16}
use mp.Fs.{Superblock, Disk}
use mp.Fs.Content.{
  ndirect, dinode_size, ipb, iblock, ioffset, Core, File, store_core, iupdate, load_core,
}
use mp.Fs.StoreCore.{
  write_addrs_below, read_u32-same, read_u16-same, read-write_addrs, store_head, store_core-head,
  store_core_other,
}

-- The fields fit their width.
pub record Fits (ip : Core) : Type 0 where
  pub type : ip.type < 2 ^ 16
  pub major : ip.major < 2 ^ 16
  pub mode : ip.mode < 2 ^ 16
  pub nlink : ip.nlink < 2 ^ 16
  pub size : ip.size < 2 ^ 32
  pub addrs : (i : ℕ) → i ≤ ndirect → ip.addrs i < 2 ^ 32

head_u16 :
    (ip : Core) (o p : ℕ) (b : Bytes)
    → p + 2 ≤ o + 12
    → read_u16 (store_core ip o b) p ≡ read_u16 (store_head ip o b) p
head_u16 ip o p b h = read_u16-same (store_head ip o b) (store_core ip o b) p (λ j jl jh.
    ap (λ c. c j) (store_core-head ip o b)
    ∙ write_addrs_below (o + 12) 0 (ndirect + 1) ip.addrs (store_head ip o b) j (omega arith))

head_fields :
    (ip : Core) (o : ℕ) (b : Bytes)
    → Fits ip
    → (read_u16 (store_head ip o b) o ≡ ip.type)
      × (read_u16 (store_head ip o b) (o + 2) ≡ ip.major)
      × (read_u16 (store_head ip o b) (o + 4) ≡ ip.mode)
      × (read_u16 (store_head ip o b) (o + 6) ≡ ip.nlink)
      × (read_u32 (store_head ip o b) (o + 8) ≡ ip.size)
unfolding store_head write_u16 write_u32 read_u16 read_u32
head_fields ip o b h = (
  ground (arith, h.type),
  ground (arith, h.major),
  ground (arith, h.mode),
  ground (arith, h.nlink),
  ground (arith, h.size),
)

-- The fields that the disk has of an inode are the same.
pub record SameFields (c c' : Core) : Type 0 where
  pub type : c.type ≡ c'.type
  pub major : c.major ≡ c'.major
  pub mode : c.mode ≡ c'.mode
  pub nlink : c.nlink ≡ c'.nlink
  pub size : c.size ≡ c'.size
  pub addrs : (i : ℕ) → i ≤ ndirect → c.addrs i ≡ c'.addrs i

-- The fields read at `o` in a block.
fields_at : Bytes → ℕ → Core → Core
fields_at b o c = record c {
  type = read_u16 b o;
  major = read_u16 b (o + 2);
  mode = read_u16 b (o + 4);
  nlink = read_u16 b (o + 6);
  size = read_u32 b (o + 8);
  addrs = λ i. read_u32 b (o + 12 + 4 * i);
}

stored-SameFields :
    (ip : Core) (o : ℕ) (b : Bytes) → Fits ip → SameFields (fields_at (store_core ip o b) o ip) ip
unfolding fields_at
stored-SameFields ip o b h =
    let (t, mj, md, nl, sz) = head_fields ip o b h in
    record {
      type = head_u16 ip o o b (omega arith) ∙ t;
      major = head_u16 ip o (o + 2) b (omega arith) ∙ mj;
      mode = head_u16 ip o (o + 4) b (omega arith) ∙ md;
      nlink = head_u16 ip o (o + 6) b (omega arith) ∙ nl;
      size =
          read_u32-same (store_head ip o b) (store_core ip o b) (o + 8) (λ j jl jh.
            ap (λ c. c j) (store_core-head ip o b)
            ∙ write_addrs_below (o + 12) 0 (ndirect + 1) ip.addrs (store_head ip o b) j
                (omega arith))
          ∙ sz;
      addrs = λ i hi.
          ap (λ c. read_u32 c (o + 12 + 4 * i)) (store_core-head ip o b)
          ∙ read-write_addrs (o + 12) 0 (ndirect + 1) i ip.addrs (store_head ip o b) (omega arith)
              (omega arith) (h.addrs i hi);
    }

other-SameFields :
    (ip c : Core) (o p : ℕ) (b : Bytes)
    → (p + dinode_size ≤ o) ⊎ (o + dinode_size ≤ p)
    → SameFields (fields_at (store_core ip o b) p c) (fields_at b p c)
unfolding fields_at
other-SameFields ip c o p b h =
    let same : (j : ℕ) → p ≤ j → j < p + dinode_size → store_core ip o b j ≡ b j = λ j lo hi.
      store_core_other ip o b j
        (elim h [ inl x ↦ inl (omega (arith, x, hi)) | inr x ↦ inr (omega (arith, x, lo)) ]) in
    record {
      type = read_u16-same b (store_core ip o b) p (λ j lo hi. same j (omega arith) (omega arith));
      major =
          read_u16-same b (store_core ip o b) (p + 2)
            (λ j lo hi. same j (omega arith) (omega arith));
      mode =
          read_u16-same b (store_core ip o b) (p + 4)
            (λ j lo hi. same j (omega arith) (omega arith));
      nlink =
          read_u16-same b (store_core ip o b) (p + 6)
            (λ j lo hi. same j (omega arith) (omega arith));
      size =
          read_u32-same b (store_core ip o b) (p + 8)
            (λ j lo hi. same j (omega arith) (omega arith));
      addrs = λ i hi'.
          read_u32-same b (store_core ip o b) (p + 12 + 4 * i)
            (λ j lo hi. same j (omega arith) (omega arith));
    }

load_core-fields :
    (sb : Superblock) (dev inum : ℕ) (d : Disk) (c : Core)
    → SameFields (fields_at (d (iblock inum sb)) (ioffset inum) c) (load_core sb dev inum d)
unfolding load_core fields_at
load_core-fields sb dev inum d c = record {
  type = refl;
  major = refl;
  mode = refl;
  nlink = refl;
  size = refl;
  addrs = λ i _. refl;
}

SameFields-trans : {a b c : Core} → SameFields a b → SameFields b c → SameFields a c
SameFields-trans g h = record {
  type = g.type ∙ h.type;
  major = g.major ∙ h.major;
  mode = g.mode ∙ h.mode;
  nlink = g.nlink ∙ h.nlink;
  size = g.size ∙ h.size;
  addrs = λ i hi. g.addrs i hi ∙ h.addrs i hi;
}

SameFields-sym : {a b : Core} → SameFields a b → SameFields b a
SameFields-sym g = record {
  type = sym g.type;
  major = sym g.major;
  mode = sym g.mode;
  nlink = sym g.nlink;
  size = sym g.size;
  addrs = λ i hi. sym (g.addrs i hi);
}

iupdate_block :
    (sb : Superblock) (f : File)
    → (iupdate sb f).disk (iblock f.ip.inum sb)
      ≡ store_core f.ip (ioffset f.ip.inum) (f.disk (iblock f.ip.inum sb))
unfolding iupdate
iupdate_block sb f =
    update_self f.disk (iblock f.ip.inum sb)
      (store_core f.ip (ioffset f.ip.inum) (f.disk (iblock f.ip.inum sb)))

pub iupdate_other :
    (sb : Superblock) (f : File) (b : ℕ)
    → iblock f.ip.inum sb ≢ b
    → (iupdate sb f).disk b ≡ f.disk b
unfolding iupdate
iupdate_other sb f b ne =
    update_ne f.disk (iblock f.ip.inum sb) b
      (store_core f.ip (ioffset f.ip.inum) (f.disk (iblock f.ip.inum sb))) ne

-- `ilock` reads of the inode what `iupdate` stored, where each field fits its width, and of every other
-- inode what was there before.
pub load_core-iupdate :
    (sb : Superblock) (f : File) (dev : ℕ)
    → Fits f.ip
    → SameFields (load_core sb dev f.ip.inum (iupdate sb f).disk) f.ip
      × ((n : ℕ)
          → n ≢ f.ip.inum
          → SameFields (load_core sb dev n (iupdate sb f).disk) (load_core sb dev n f.disk))
load_core-iupdate sb f dev h =
    let i = f.ip.inum in
    let d' = (iupdate sb f).disk in
    (
      SameFields-trans (SameFields-sym (load_core-fields sb dev i d' f.ip)) (
          subst (λ b. SameFields (fields_at b (ioffset i) f.ip) f.ip) (sym (iupdate_block sb f))
            (stored-SameFields f.ip (ioffset i) (f.disk (iblock i sb)) h)),
      λ n ne. SameFields-trans (SameFields-sym (load_core-fields sb dev n d' f.ip)) (
          SameFields-trans
            (elim (Bool-cases (iblock i sb == iblock n sb)) [
              | inl q ↦
                  let e : iblock i sb ≡ iblock n sb = ==→eq (iblock i sb) (iblock n sb) q in
                  subst
                    (λ b.
                      SameFields (fields_at (d' b) (ioffset n) f.ip)
                        (fields_at (f.disk b) (ioffset n) f.ip))
                    e
                    (subst
                      (λ b.
                        SameFields (fields_at b (ioffset n) f.ip)
                          (fields_at (f.disk (iblock i sb)) (ioffset n) f.ip))
                      (sym (iupdate_block sb f))
                      (other-SameFields f.ip f.ip (ioffset i) (ioffset n) (f.disk (iblock i sb))
                        (apart i n ne e)))
              | inr q ↦
                  let e = iupdate_other sb f (iblock n sb) (==→ne (iblock i sb) (iblock n sb) q) in
                  subst
                    (λ b.
                      SameFields (fields_at b (ioffset n) f.ip)
                        (fields_at (f.disk (iblock n sb)) (ioffset n) f.ip))
                    (sym e)
                    (SameFields-trans (load_core-fields sb dev n f.disk f.ip)
                      (SameFields-sym (load_core-fields sb dev n f.disk f.ip)))
            ])
            (load_core-fields sb dev n f.disk f.ip)),
    )
  where
    apart :
        (i n : ℕ)
        → n ≢ i
        → i / ipb + sb.inodestart ≡ n / ipb + sb.inodestart
        → (ioffset n + dinode_size ≤ ioffset i) ⊎ (ioffset i + dinode_size ≤ ioffset n)
    apart i n ne e = elim (Bool-cases (ltb (n % ipb) (i % ipb))) [
      | inl q ↦ inl (ground arith)
      | inr q ↦ inr (ground arith)
    ]

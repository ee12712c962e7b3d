-- ===== src/Fs/Gets.antt =====
-- kernel/fs.c: what `bmap` changes in a file, for a direct block and through the indirect block.
use mp.Prelude.{
  ℕ, ◌+◌, ◌-◌, ◌*◌, ◌%◌, ◌^◌, ◌≤◌, ◌<◌, ◌≡◌, refl, sym, ap, ◌∙◌, subst, ◌≢◌, inl, inr, false, arith,
  ltb, ◌==◌, if◌then◌else◌, ltb→lt, lt→ltb, ltb→le, le→ltb, ==→eq, ==→ne, ne→==, ==_refl,
  Bool-cases,
}
use mp.Prelude.Update.{update, update_self, update_ne}
use mp.Words.{read_u32, write_u32}
use mp.Fs.{Superblock, Disk, bpb, bblock, bit}
use mp.Fs.Bitmap.{used, IsAllocated}
use mp.Fs.Content.{ndirect, nindirect, maxfile, File}
use mp.Fs.Layout.{indirect_role, addr_at, IsFile, allocated-IsFresh}
use mp.Fs.Extend.{
  with_addr, with_direct-IsFile, zero_word, with_indirect-IsFile, entry_after, with_entry,
  with_entry-IsFile,
}
use mp.Fs.Room.{HasRoom, HasRoom-same}

-- The three cases of an address.
pub addr_direct : (f : File) (j : ℕ) → j < ndirect → addr_at f j ≡ f.ip.addrs j
addr_direct f j h = rw (lt→ltb j ndirect h) refl

pub addr_missing : (f : File) (j : ℕ) → ndirect ≤ j → f.ip.addrs ndirect ≡ 0 → addr_at f j ≡ 0
addr_missing f j h z = rw (le→ltb j ndirect h, z) refl

pub addr_entry :
    (f : File) (j : ℕ)
    → ndirect ≤ j
    → f.ip.addrs ndirect ≢ 0
    → addr_at f j ≡ read_u32 (f.disk (f.ip.addrs ndirect)) (4 * (j - ndirect))
addr_entry f j h ne = rw (le→ltb j ndirect h, ne→== (f.ip.addrs ndirect) 0 ne) refl

pub addr_role :
    (sb : Superblock) (role : ℕ → ℕ) (f : File) (j : ℕ)
    → IsFile sb role f
    → j < maxfile
    → addr_at f j ≢ 0
    → role (addr_at f j) ≡ j + 1
addr_role sb role f j h hj ne = elim (Bool-cases (ltb j ndirect)) [
  | inl q ↦
      let lt = ltb→lt j ndirect q in
      let e = addr_direct f j lt in ap role e ∙ h.direct j lt (λ z. ne (e ∙ z))
  | inr q ↦
      let le = ltb→le j ndirect q in
      elim (Bool-cases (f.ip.addrs ndirect == 0)) [
        | inl z ↦ absurd (ne (addr_missing f j le (==→eq (f.ip.addrs ndirect) 0 z)))
        | inr z ↦
            let there = ==→ne (f.ip.addrs ndirect) 0 z in
            let e = addr_entry f j le there in
            let back : ndirect + (j - ndirect) + 1 ≡ j + 1 = omega arith in
            ap role e ∙ h.data_blocks (j - ndirect) (omega arith) there (λ z. ne (e ∙ z)) ∙ back
      ]
]

-- Beside the blocks `a` and `b` and the map, no block changes, and no other block is marked or unmarked.
pub record OnlyTakes (sb : Superblock) (a b : ℕ) (d d' : Disk) : Type 0 where
  pub others : (x : ℕ) → x ≢ a → x ≢ b → ((n : ℕ) → n < sb.size → x ≢ bblock n sb) → d' x ≡ d x
  pub marks : (n : ℕ) → n < sb.size → n ≢ a → n ≢ b → used sb d' n ≡ used sb d n

pub OnlyTakes-refl : (sb : Superblock) (a b : ℕ) (d : Disk) → OnlyTakes sb a b d d
OnlyTakes-refl sb a b d = record { others = λ _ _ _ _. refl; marks = λ _ _ _ _. refl }

OnlyTakes-allocated :
    (sb : Superblock) (n b : ℕ) (d d' : Disk) → IsAllocated sb d n d' → OnlyTakes sb n b d d'
OnlyTakes-allocated sb n b d d' a = record {
  others = λ x ne _ map. a.untouched x ne (map n a.in_range);
  marks = λ m hm ne _. a.others m hm ne;
}

-- What `bmap` gives: the address of the block, which is new and zeroed if there was none. All other
-- blocks of the file stay where they are, and of the disk only the block, the indirect block and the map
-- may change.
pub record Gets (sb : Superblock) (role : ℕ → ℕ) (f : File) (k bn a : ℕ) (f' : File) : Type 0 where
  pub role' : ℕ → ℕ
  pub file : IsFile sb role' f'
  pub there : a ≢ 0
  pub at : addr_at f' bn ≡ a
  pub same : (j : ℕ) → j < maxfile → j ≢ bn → addr_at f' j ≡ addr_at f j
  pub keeps : (j : ℕ) → j < maxfile → addr_at f j ≢ 0 → f'.disk (addr_at f j) ≡ f.disk (addr_at f j)
  pub only : OnlyTakes sb a (f'.ip.addrs ndirect) f.disk f'.disk
  pub indirect_same : f.ip.addrs ndirect ≢ 0 → f'.ip.addrs ndirect ≡ f.ip.addrs ndirect
  pub fresh : addr_at f bn ≡ 0 → (o : ℕ) → f'.disk a o ≡ 0
  pub old : addr_at f bn ≢ 0 → f' ≡ f
  pub size : f'.ip.size ≡ f.ip.size
  pub type : f'.ip.type ≡ f.ip.type
  pub inum : f'.ip.inum ≡ f.ip.inum
  pub room : HasRoom sb f'.disk k

pub Gets-old :
    (sb : Superblock) (role : ℕ → ℕ) (f : File) (k bn a : ℕ)
    → IsFile sb role f
    → addr_at f bn ≡ a
    → a ≢ 0
    → HasRoom sb f.disk k
    → Gets sb role f k bn a f
Gets-old sb role f k bn a h e ne room = record {
  role' = role;
  file = h;
  there = ne;
  at = e;
  same = λ j _ _. refl;
  keeps = λ j _ _. refl;
  only = OnlyTakes-refl sb a (f.ip.addrs ndirect) f.disk;
  indirect_same = λ _. refl;
  fresh = λ z. absurd (ne (sym e ∙ z));
  old = λ _. refl;
  size = refl;
  type = refl;
  inum = refl;
  room = room;
}

-- A direct block, once it was allocated.
pub Gets-direct :
    (sb : Superblock) (role : ℕ → ℕ) (f : File) (k bn n : ℕ) (d : Disk)
    → IsFile sb role f
    → bn < ndirect
    → f.ip.addrs bn ≡ 0
    → IsAllocated sb f.disk n d
    → HasRoom sb d k
    → Gets sb role f k bn n (with_addr f bn n d)
Gets-direct sb role f k bn n d h hb gone a room =
    let fresh = allocated-IsFresh sb role f.ip.inum f.disk d n h.placed a in
    let f' = with_addr f bn n d in
    let same_12 : f'.ip.addrs ndirect ≡ f.ip.addrs ndirect =
      update_ne f.ip.addrs bn ndirect n (λ e. omega (arith, e)) in
    record {
      role' = update role n (bn + 1);
      file = with_direct-IsFile sb role f bn n d h hb a fresh;
      there = fresh.not_zero;
      at = addr_direct f' bn hb ∙ update_self f.ip.addrs bn n;
      same = λ j hj ne. elim (Bool-cases (ltb j ndirect)) [
        | inl q ↦
            let lt = ltb→lt j ndirect q in
            addr_direct f' j lt
            ∙ update_ne f.ip.addrs bn j n (λ z. ne (sym z))
            ∙ sym (addr_direct f j lt)
        | inr q ↦
            let le = ltb→le j ndirect q in
            elim (Bool-cases (f.ip.addrs ndirect == 0)) [
              | inl z ↦
                  let e = ==→eq (f.ip.addrs ndirect) 0 z in
                  addr_missing f' j le (same_12 ∙ e) ∙ sym (addr_missing f j le e)
              | inr z ↦
                  let has = ==→ne (f.ip.addrs ndirect) 0 z in
                  let stays : d (f.ip.addrs ndirect) ≡ f.disk (f.ip.addrs ndirect) =
                    fresh.keeps (f.ip.addrs ndirect) (λ w. omega (arith, h.indirect has, w)) in
                  addr_entry f' j le (λ w. has (sym same_12 ∙ w))
                  ∙ ap (λ x. read_u32 (d x) (4 * (j - ndirect))) same_12
                  ∙ ap (λ b. read_u32 b (4 * (j - ndirect))) stays
                  ∙ sym (addr_entry f j le has)
            ]
      ];
      keeps = λ j hj ne.
          fresh.keeps (addr_at f j) (λ z. omega (arith, addr_role sb role f j h hj ne, z));
      only = OnlyTakes-allocated sb n (f'.ip.addrs ndirect) f.disk d a;
      indirect_same = λ _. same_12;
      fresh = λ _ o. a.zeroed o;
      old = λ ne. absurd (ne (addr_direct f bn hb ∙ gone));
      size = refl;
      type = refl;
      inum = refl;
      room = room;
    }

-- The indirect block, once it was allocated: every address stays.
pub record GetsIndirect (sb : Superblock) (role : ℕ → ℕ) (f : File) (k : ℕ) (f' : File)
    : Type 0 where
  pub role' : ℕ → ℕ
  pub file : IsFile sb role' f'
  pub there : f'.ip.addrs ndirect ≢ 0
  pub same : (j : ℕ) → addr_at f' j ≡ addr_at f j
  pub keeps : (j : ℕ) → j < maxfile → addr_at f j ≢ 0 → f'.disk (addr_at f j) ≡ f.disk (addr_at f j)
  pub only : OnlyTakes sb (f'.ip.addrs ndirect) (f'.ip.addrs ndirect) f.disk f'.disk
  pub old : f.ip.addrs ndirect ≢ 0 → f' ≡ f
  pub size : f'.ip.size ≡ f.ip.size
  pub type : f'.ip.type ≡ f.ip.type
  pub inum : f'.ip.inum ≡ f.ip.inum
  pub room : HasRoom sb f'.disk k

pub GetsIndirect-new :
    (sb : Superblock) (role : ℕ → ℕ) (f : File) (k n : ℕ) (d : Disk)
    → IsFile sb role f
    → f.ip.addrs ndirect ≡ 0
    → IsAllocated sb f.disk n d
    → HasRoom sb d k
    → GetsIndirect sb role f k (with_addr f ndirect n d)
GetsIndirect-new sb role f k n d h gone a room =
    let fresh = allocated-IsFresh sb role f.ip.inum f.disk d n h.placed a in
    let f' = with_addr f ndirect n d in
    let here : f'.ip.addrs ndirect ≡ n = update_self f.ip.addrs ndirect n in
    record {
      role' = update role n indirect_role;
      file = with_indirect-IsFile sb role f n d h a fresh;
      there = λ z. fresh.not_zero (sym here ∙ z);
      same = λ j. elim (Bool-cases (ltb j ndirect)) [
        | inl q ↦
            let lt = ltb→lt j ndirect q in
            addr_direct f' j lt
            ∙ update_ne f.ip.addrs ndirect j n (λ z. omega (arith, lt, z))
            ∙ sym (addr_direct f j lt)
        | inr q ↦
            let le = ltb→le j ndirect q in
            addr_entry f' j le (λ z. fresh.not_zero (sym here ∙ z))
            ∙ ap (λ x. read_u32 (d x) (4 * (j - ndirect))) here
            ∙ zero_word (d n) (4 * (j - ndirect)) a.zeroed
            ∙ sym (addr_missing f j le gone)
      ];
      keeps = λ j hj ne.
          fresh.keeps (addr_at f j) (λ z. omega (arith, addr_role sb role f j h hj ne, z));
      only =
          subst (λ x. OnlyTakes sb x (f'.ip.addrs ndirect) f.disk d) (sym here)
            (OnlyTakes-allocated sb n (f'.ip.addrs ndirect) f.disk d a);
      old = λ ne. absurd (ne gone);
      size = refl;
      type = refl;
      inum = refl;
      room = room;
    }

-- An entry of the indirect block, once its block was allocated.
pub Gets-entry :
    (sb : Superblock) (role : ℕ → ℕ) (f : File) (k i n : ℕ) (d : Disk)
    → IsFile sb role f
    → i < nindirect
    → f.ip.addrs ndirect ≢ 0
    → read_u32 (f.disk (f.ip.addrs ndirect)) (4 * i) ≡ 0
    → IsAllocated sb f.disk n d
    → HasRoom sb d k
    → Gets sb role f k (ndirect + i) n (with_entry f i n d)
Gets-entry sb role f k i n d h hi has gone a room =
    let fresh = allocated-IsFresh sb role f.ip.inum f.disk d n h.placed a in
    let f' = with_entry f i n d in
    let addr = f.ip.addrs ndirect in
    let small : n < 2 ^ 32 = omega (arith, a.in_range, h.placed.small) in
    let stays : d addr ≡ f.disk addr = fresh.keeps addr (λ w. omega (arith, h.indirect has, w)) in
    let block : f'.disk addr ≡ write_u32 (d addr) (4 * i) n =
      update_self d addr (write_u32 (d addr) (4 * i) n) in
    let entry : (j : ℕ)
        → ndirect ≤ j
        → addr_at f' j
          ≡ (if i == j - ndirect then n else read_u32 (f.disk addr) (4 * (j - ndirect))) =
      λ j le.
        addr_entry f' j le has
        ∙ ap (λ b. read_u32 b (4 * (j - ndirect))) block
        ∙ entry_after (d addr) i (j - ndirect) n small
        ∙ ap (λ b. if i == j - ndirect then n else read_u32 b (4 * (j - ndirect))) stays in
    let back : ndirect + i - ndirect ≡ i = omega arith in
    let role_addr = h.indirect has in
    record {
      role' = update role n (ndirect + i + 1);
      file = with_entry-IsFile sb role f i n d h hi has a fresh;
      there = fresh.not_zero;
      at = entry (ndirect + i) (omega arith) ∙ rw (back, ==_refl i) refl;
      same = λ j hj ne. elim (Bool-cases (ltb j ndirect)) [
        | inl q ↦ let lt = ltb→lt j ndirect q in addr_direct f' j lt ∙ sym (addr_direct f j lt)
        | inr q ↦
            let le = ltb→le j ndirect q in
            let other : (i == j - ndirect) ≡ false =
              ne→== i (j - ndirect) (λ z. ne (omega (arith, z, le))) in
            entry j le ∙ rw other (sym (addr_entry f j le has))
      ];
      keeps = λ j hj ne.
          let r = addr_role sb role f j h hj ne in
          update_ne d addr (addr_at f j) (write_u32 (d addr) (4 * i) n)
            (λ z. omega (arith, ap role z, r, role_addr, hj))
          ∙ fresh.keeps (addr_at f j) (λ z. omega (arith, r, z));
      only = record {
        others = λ x na nb map.
            update_ne d addr x (write_u32 (d addr) (4 * i) n) (λ z. nb (sym z))
            ∙ a.untouched x na (map n a.in_range);
        marks = λ m hm na nb.
            ap (λ b. bit b (m % bpb))
              (update_ne d addr (bblock m sb) (write_u32 (d addr) (4 * i) n)
                (λ z. omega (arith, ap role z, h.placed.no_map m hm, role_addr)))
            ∙ a.others m hm na;
      };
      indirect_same = λ _. refl;
      fresh = λ _ o.
          ap (λ b. b o)
            (update_ne d addr n (write_u32 (d addr) (4 * i) n)
              (λ z. omega (arith, ap role z, fresh.unused, role_addr)))
          ∙ a.zeroed o;
      old = λ ne. absurd (
          ne (
            addr_entry f (ndirect + i) (omega arith) has
            ∙ ap (λ x. read_u32 (f.disk addr) (4 * x)) back
            ∙ gone));
      size = refl;
      type = refl;
      inum = refl;
      room =
          HasRoom-same sb d f'.disk k
            (λ m hm.
              ap (λ b. bit b (m % bpb))
                (update_ne d addr (bblock m sb) (write_u32 (d addr) (4 * i) n)
                  (λ z. omega (arith, ap role z, h.placed.no_map m hm, role_addr))))
            room;
    }

-- The two together.
pub Gets-after :
    (sb : Superblock) (role : ℕ → ℕ) (f f1 f2 : File) (k j bn a : ℕ)
    → (g : GetsIndirect sb role f j f1) → Gets sb g.role' f1 k bn a f2
    → bn < maxfile
    → ndirect ≤ bn
    → Gets sb role f k bn a f2
Gets-after sb role f f1 f2 k j bn a g h hb hi = record {
  role' = h.role';
  file = h.file;
  there = h.there;
  at = h.at;
  same = λ i lt ne. h.same i lt ne ∙ g.same i;
  keeps = λ i lt ne.
      let e = g.same i in
      subst (λ x. f2.disk x ≡ f1.disk x) e (h.keeps i lt (λ z. ne (sym e ∙ z))) ∙ g.keeps i lt ne;
  only =
      let ind = f2.ip.addrs ndirect in
      let same : ind ≡ f1.ip.addrs ndirect = h.indirect_same g.there in
      record {
        others = λ x na nb map.
            h.only.others x na nb map
            ∙ g.only.others x (λ z. nb (z ∙ sym same)) (λ z. nb (z ∙ sym same)) map;
        marks = λ n hn na nb.
            h.only.marks n hn na nb
            ∙ g.only.marks n hn (λ z. nb (z ∙ sym same)) (λ z. nb (z ∙ sym same));
      };
  indirect_same = λ has. h.indirect_same g.there ∙ ap (λ x. x.ip.addrs ndirect) (g.old has);
  fresh = λ z. h.fresh (g.same bn ∙ z);
  old = λ ne.
      let has : f.ip.addrs ndirect ≢ 0 = λ z. ne (addr_missing f bn hi z) in
      h.old (λ z. ne (sym (g.same bn) ∙ z)) ∙ g.old has;
  size = h.size ∙ g.size;
  type = h.type ∙ g.type;
  inum = h.inum ∙ g.inum;
  room = h.room;
}

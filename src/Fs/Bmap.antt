-- ===== src/Fs/Bmap.antt =====
-- kernel/fs.c: what `bmap` does to a file.
use mp.Prelude.{
  ℕ, suc, ◌+◌, ◌-◌, ◌*◌, ◌<◌, ◌≡◌, refl, sym, ap, ◌∙◌, subst, ◌≢◌, inl, inr, arith, ltb, ◌==◌,
  ltb→lt, lt→ltb, ltb→le, ==→eq, ==→ne, ne→==, Bool-cases, ok, ◌>>=◌,
}
use mp.Prelude.Update.{update_self}
use mp.Words.{read_u32}
use mp.Fs.{Superblock, Disk, balloc}
use mp.Fs.Content.{ndirect, nindirect, maxfile, File, bmap_direct, bmap_entry, bmap}
use mp.Fs.Layout.{addr_at, IsFile, allocated-IsFresh}
use mp.Fs.Extend.{with_addr, with_entry}
use mp.Fs.Room.{HasRoom, HasRoom-less, balloc_returns}
use mp.Fs.Gets.{
  OnlyTakes-refl, addr_direct, addr_missing, addr_entry, Gets, Gets-old, Gets-direct, GetsIndirect,
  GetsIndirect-new, Gets-entry, Gets-after,
}

bmap_direct_old :
    (sb : Superblock) (bn : ℕ) (f : File)
    → f.ip.addrs bn ≢ 0
    → bmap_direct sb bn f ≡ ok (f.ip.addrs bn, f)
unfolding bmap_direct
bmap_direct_old sb bn f ne = rw (ne→== (f.ip.addrs bn) 0 ne) refl

bmap_direct_new :
    (sb : Superblock) (bn n : ℕ) (d : Disk) (f : File)
    → f.ip.addrs bn ≡ 0
    → balloc sb f.disk ≡ ok (n, d)
    → n ≢ 0
    → bmap_direct sb bn f ≡ ok (n, with_addr f bn n d)
unfolding bmap_direct ◌>>=◌
bmap_direct_new sb bn n d f z e ne = rw (z, e, ne→== n 0 ne) refl

bmap_entry_old :
    (sb : Superblock) (addr i : ℕ) (f : File)
    → read_u32 (f.disk addr) (4 * i) ≢ 0
    → bmap_entry sb addr i f ≡ ok (read_u32 (f.disk addr) (4 * i), f)
unfolding bmap_entry
bmap_entry_old sb addr i f ne = rw (ne→== (read_u32 (f.disk addr) (4 * i)) 0 ne) refl

bmap_entry_new :
    (sb : Superblock) (i n : ℕ) (d : Disk) (f : File)
    → read_u32 (f.disk (f.ip.addrs ndirect)) (4 * i) ≡ 0
    → balloc sb f.disk ≡ ok (n, d)
    → n ≢ 0
    → bmap_entry sb (f.ip.addrs ndirect) i f ≡ ok (n, with_entry f i n d)
unfolding bmap_entry ◌>>=◌
bmap_entry_new sb i n d f z e ne = rw (z, e, ne→== n 0 ne) refl

pub get_direct :
    (sb : Superblock) (role : ℕ → ℕ) (f : File) (k bn : ℕ)
    → IsFile sb role f
    → bn < ndirect
    → HasRoom sb f.disk (suc k)
    → (a : ℕ) × (f' : File) × (bmap_direct sb bn f ≡ ok (a, f')) × Gets sb role f k bn a f'
get_direct sb role f k bn h hb room = elim (Bool-cases (f.ip.addrs bn == 0)) [
  | inr has ↦
      let ne = ==→ne (f.ip.addrs bn) 0 has in
      (
        f.ip.addrs bn,
        f,
        bmap_direct_old sb bn f ne,
        Gets-old sb role f k bn (f.ip.addrs bn) h (addr_direct f bn hb) ne
            (HasRoom-less sb f.disk k (suc k) (omega arith) room),
      )
  | inl gone ↦
      let z = ==→eq (f.ip.addrs bn) 0 gone in
      let (n, d, e, a, room') = balloc_returns sb f.disk k h.placed.laid room in
      let g = Gets-direct sb role f k bn n d h hb z a room' in
      (n, with_addr f bn n d, bmap_direct_new sb bn n d f z e g.there, g)
]

pub get_indirect :
    (sb : Superblock) (role : ℕ → ℕ) (f : File) (k : ℕ)
    → IsFile sb role f
    → HasRoom sb f.disk (suc k)
    → (f' : File) × (bmap_direct sb ndirect f ≡ ok (f'.ip.addrs ndirect, f'))
      × GetsIndirect sb role f k f'
get_indirect sb role f k h room = elim (Bool-cases (f.ip.addrs ndirect == 0)) [
  | inr has ↦
      let ne = ==→ne (f.ip.addrs ndirect) 0 has in
      (
        f,
        bmap_direct_old sb ndirect f ne,
        record {
          role' = role;
          file = h;
          there = ne;
          same = λ j. refl;
          keeps = λ j _ _. refl;
          only = OnlyTakes-refl sb (f.ip.addrs ndirect) (f.ip.addrs ndirect) f.disk;
          old = λ _. refl;
          size = refl;
          type = refl;
          inum = refl;
          room = HasRoom-less sb f.disk k (suc k) (omega arith) room;
        },
      )
  | inl gone ↦
      let z = ==→eq (f.ip.addrs ndirect) 0 gone in
      let (n, d, e, a, room') = balloc_returns sb f.disk k h.placed.laid room in
      let fresh = allocated-IsFresh sb role f.ip.inum f.disk d n h.placed a in
      let here = update_self f.ip.addrs ndirect n in
      (
        with_addr f ndirect n d,
        subst (λ x. bmap_direct sb ndirect f ≡ ok (x, with_addr f ndirect n d)) (sym here)
            (bmap_direct_new sb ndirect n d f z e fresh.not_zero),
        GetsIndirect-new sb role f k n d h z a room',
      )
]

pub get_entry :
    (sb : Superblock) (role : ℕ → ℕ) (f : File) (k i : ℕ)
    → IsFile sb role f
    → i < nindirect
    → f.ip.addrs ndirect ≢ 0
    → HasRoom sb f.disk (suc k)
    → (a : ℕ) × (f' : File) × (bmap_entry sb (f.ip.addrs ndirect) i f ≡ ok (a, f'))
      × Gets sb role f k (ndirect + i) a f'
get_entry sb role f k i h hi there room =
    let x = read_u32 (f.disk (f.ip.addrs ndirect)) (4 * i) in
    let back : ndirect + i - ndirect ≡ i = omega arith in
    elim (Bool-cases (x == 0)) [
      | inr has ↦
          let ne = ==→ne x 0 has in
          (
            x,
            f,
            bmap_entry_old sb (f.ip.addrs ndirect) i f ne,
            Gets-old sb role f k (ndirect + i) x h
                (addr_entry f (ndirect + i) (omega arith) there
                  ∙ ap (λ y. read_u32 (f.disk (f.ip.addrs ndirect)) (4 * y)) back)
                ne (HasRoom-less sb f.disk k (suc k) (omega arith) room),
          )
      | inl gone ↦
          let z = ==→eq x 0 gone in
          let (n, d, e, a, room') = balloc_returns sb f.disk k h.placed.laid room in
          let g = Gets-entry sb role f k i n d h hi there z a room' in
          (n, with_entry f i n d, bmap_entry_new sb i n d f z e g.there, g)
    ]

-- `bmap` of a block below MAXFILE, where two blocks are free, returns the block's address without a
-- panic. If the file had no block there it gets one that is zeroed and that no other part of it uses;
-- if it had one, nothing changes. Every other block of the file keeps its place and its contents. On the
-- disk only that block, the indirect block of the file and the free map change, and in the map at most
-- those two blocks.
pub bmap_lem :
    (sb : Superblock) (role : ℕ → ℕ) (f : File) (k bn : ℕ)
    → IsFile sb role f
    → bn < maxfile
    → HasRoom sb f.disk (suc (suc k))
    → (a : ℕ) × (f' : File) × (bmap sb bn f ≡ ok (a, f')) × Gets sb role f k bn a f'
unfolding bmap ◌>>=◌
bmap_lem sb role f k bn h hb room = elim (Bool-cases (ltb bn ndirect)) [
  | inl q ↦
      let (a, f', e, g) =
        get_direct sb role f k bn h (ltb→lt bn ndirect q)
          (HasRoom-less sb f.disk (suc k) (suc (suc k)) (omega arith) room) in
      (a, f', rw q e, g)
  | inr q ↦
      let le = ltb→le bn ndirect q in
      let hi : bn - ndirect < nindirect = omega arith in
      let (f1, e1, g1) = get_indirect sb role f (suc k) h room in
      let (a, f2, e2, g2) = get_entry sb g1.role' f1 k (bn - ndirect) g1.file hi g1.there g1.room in
      let back : ndirect + (bn - ndirect) ≡ bn = omega arith in
      (
        a,
        f2,
        rw (q, lt→ltb (bn - ndirect) nindirect hi, e1) e2,
        Gets-after sb role f f1 f2 k (suc k) bn a g1
            (subst (λ x. Gets sb g1.role' f1 k x a f2) back g2) hb le,
      )
]

-- `bmap` of a block that the file has.
pub bmap_there :
    (sb : Superblock) (f : File) (bn : ℕ)
    → bn < maxfile
    → addr_at f bn ≢ 0
    → bmap sb bn f ≡ ok (addr_at f bn, f)
unfolding bmap ◌>>=◌
bmap_there sb f bn hb ne = elim (Bool-cases (ltb bn ndirect)) [
  | inl q ↦
      let e = addr_direct f bn (ltb→lt bn ndirect q) in
      rw q (bmap_direct_old sb bn f (λ z. ne (e ∙ z)))
  | inr q ↦
      let le = ltb→le bn ndirect q in
      let hi : bn - ndirect < nindirect = omega arith in
      elim (Bool-cases (f.ip.addrs ndirect == 0)) [
        | inl z ↦ absurd (ne (addr_missing f bn le (==→eq (f.ip.addrs ndirect) 0 z)))
        | inr z ↦
            let has = ==→ne (f.ip.addrs ndirect) 0 z in
            let e = addr_entry f bn le has in
            rw (q, lt→ltb (bn - ndirect) nindirect hi, bmap_direct_old sb ndirect f has, z)
              (bmap_entry_old sb (f.ip.addrs ndirect) (bn - ndirect) f (λ w. ne (e ∙ w)))
      ]
]

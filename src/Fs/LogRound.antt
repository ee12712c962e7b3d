-- ===== src/Fs/LogRound.antt =====
-- kernel/fs.c: `bmap` and the `log_write` of the block add one block to the log, beside the block of the
-- map and the indirect block.
use mp.Prelude.{
  ℕ, suc, ◌+◌, ◌-◌, ◌*◌, ◌≤◌, ◌<◌, ◌≡◌, refl, sym, ap, ◌∙◌, subst, ◌≢◌, inl, inr, List, arith, ltb,
  ◌==◌, ltb→lt, lt→ltb, ltb→le, ==→eq, eq→==, ==→ne, ne→==, Bool-cases, length, ok, ◌>>=◌,
}
use mp.Words.{read_u32}
use mp.Fs.{Superblock, bpb, bblock}
use mp.Fs.Content.{ndirect, nindirect, maxfile, File, bmap_direct, bmap_entry}
use mp.Fs.Layout.{IsFile}
use mp.Fs.Room.{HasRoom, HasRoom-less}
use mp.Fs.Gets.{addr_role, Gets, GetsIndirect, Gets-after}
use mp.Fs.Bmap.{get_direct, get_indirect, get_entry}
use mp.Fs.Trans.{
  Trans, with_block_number, log_block, log_balloc, bmap_direct_logged, bmap_entry_logged,
  bmap_logged,
}
use mp.Fs.LogRoom.{
  absorbed, in_log_kept, in_log_added, charge, charge_any, charge_map, charge_indirect,
  charge-length, charge_same, log_block_ok,
}

-- The free map is one block, and the log is not full.
log_balloc_ok :
    (sb : Superblock) (a : ℕ) (t : Trans)
    → a < sb.size
    → sb.size ≤ bpb
    → length t.blocks < t.limit
    → length (with_block_number sb.bmapstart t.blocks) < t.limit
    → log_balloc sb a t
      ≡ ok (record t { blocks = with_block_number a (with_block_number sb.bmapstart t.blocks) })
unfolding log_balloc ◌>>=◌
log_balloc_ok sb a t lt one room room' =
    let q : bblock a sb ≡ sb.bmapstart = omega arith in
    let t' : Trans = record t { blocks = with_block_number sb.bmapstart t.blocks } in
    rw (q, log_block_ok sb.bmapstart t room) (log_block_ok a t' room')

direct_logged_old :
    (sb : Superblock) (bn a : ℕ) (f f' : File) (t : Trans)
    → bmap_direct sb bn f ≡ ok (a, f')
    → f.ip.addrs bn ≢ 0
    → bmap_direct_logged sb bn f t ≡ ok (a, f', t)
unfolding bmap_direct_logged ◌>>=◌
direct_logged_old sb bn a f f' t e ne = rw (e, ne→== (f.ip.addrs bn) 0 ne) refl

direct_logged_new :
    (sb : Superblock) (bn a : ℕ) (f f' : File) (t t' : Trans)
    → bmap_direct sb bn f ≡ ok (a, f')
    → f.ip.addrs bn ≡ 0
    → log_balloc sb a t ≡ ok t'
    → bmap_direct_logged sb bn f t ≡ ok (a, f', t')
unfolding bmap_direct_logged ◌>>=◌
direct_logged_new sb bn a f f' t t' e z l = rw (e, eq→== (f.ip.addrs bn) 0 z, l) refl

entry_logged_old :
    (sb : Superblock) (addr i a : ℕ) (f f' : File) (t : Trans)
    → bmap_entry sb addr i f ≡ ok (a, f')
    → read_u32 (f.disk addr) (4 * i) ≢ 0
    → bmap_entry_logged sb addr i f t ≡ ok (a, f', t)
unfolding bmap_entry_logged ◌>>=◌
entry_logged_old sb addr i a f f' t e ne = rw (e, ne→== (read_u32 (f.disk addr) (4 * i)) 0 ne) refl

entry_logged_new :
    (sb : Superblock) (addr i a : ℕ) (f f' : File) (t t1 t2 : Trans)
    → bmap_entry sb addr i f ≡ ok (a, f')
    → read_u32 (f.disk addr) (4 * i) ≡ 0
    → log_balloc sb a t ≡ ok t1
    → log_block addr t1 ≡ ok t2
    → bmap_entry_logged sb addr i f t ≡ ok (a, f', t2)
unfolding bmap_entry_logged ◌>>=◌
entry_logged_new sb addr i a f f' t t1 t2 e z l1 l2 =
    rw (e, eq→== (read_u32 (f.disk addr) (4 * i)) 0 z, l1, l2) refl

-- A round of the loop of `writei`, without the copy.
pub record RoundLogs (sb : Superblock) (role : ℕ → ℕ) (f : File) (k bn : ℕ) (t : Trans) (a : ℕ)
    (f' : File) (t1 t2 : Trans) : Type 0 where
  pub mapped : bmap_logged sb bn f t ≡ ok (a, f', t1)
  pub gets : Gets sb role f k bn a f'
  pub block_logged : log_block a t1 ≡ ok t2
  pub limit : t2.limit ≡ t.limit
  pub charged :
      charge sb.bmapstart (f'.ip.addrs ndirect) t2.blocks
      ≤ charge sb.bmapstart (f.ip.addrs ndirect) t.blocks + 1

block_of :
    (sb : Superblock) (role : ℕ → ℕ) (f : File) (k bn a : ℕ) (f' : File)
    → Gets sb role f k bn a f'
    → bn < maxfile
    → a < sb.size
block_of sb role f k bn a f' g lt =
    let r = addr_role sb g.role' f' bn g.file lt (λ z. g.there (sym g.at ∙ z)) in
    let r' : g.role' a ≡ bn + 1 = ap g.role' (sym g.at) ∙ r in
    (g.file.placed.taken a (λ z. omega (arith, r', z))).0

charge_fits :
    (bm ind : ℕ) (t : Trans) (n : ℕ)
    → charge bm ind t.blocks + suc n ≤ t.limit
    → length t.blocks < t.limit
charge_fits bm ind t n h = omega (arith, charge-length bm ind t.blocks)

direct_round :
    (sb : Superblock) (role : ℕ → ℕ) (f : File) (k bn : ℕ) (t : Trans)
    → IsFile sb role f
    → bn < ndirect
    → sb.size ≤ bpb
    → HasRoom sb f.disk (suc k)
    → charge sb.bmapstart (f.ip.addrs ndirect) t.blocks + 2 ≤ t.limit
    → (a : ℕ) × (f' : File) × (t1 : Trans) × (t2 : Trans) × (bmap_direct_logged sb bn f t
        ≡ ok (a, f', t1))
      × Gets sb role f k bn a f'
      × (log_block a t1 ≡ ok t2)
      × (t2.limit ≡ t.limit)
      × (charge sb.bmapstart (f'.ip.addrs ndirect) t2.blocks
          ≤ charge sb.bmapstart (f.ip.addrs ndirect) t.blocks + 1)
direct_round sb role f k bn t h hb one room fits =
    let (a, f', e, g) = get_direct sb role f k bn h hb room in
    let bm = sb.bmapstart in
    let ind = f.ip.addrs ndirect in
    let l = t.blocks in
    let later = λ (x : List ℕ). charge_same bm ind (f'.ip.addrs ndirect) x g.indirect_same in
    elim (Bool-cases (f.ip.addrs bn == 0)) [
      | inr has ↦ (
        a,
        f',
        t,
        record t { blocks = with_block_number a l },
        direct_logged_old sb bn a f f' t e (==→ne (f.ip.addrs bn) 0 has),
        g,
        log_block_ok a t (charge_fits bm ind t 1 fits),
        refl,
        omega (arith, later (with_block_number a l), charge_any bm ind a l),
      )
      | inl gone ↦
          let l1 = with_block_number bm l in
          let l2 = with_block_number a l1 in
          let t1 : Trans = record t { blocks = l2 } in
          let c1 = charge_map bm ind l in
          let c2 = charge_any bm ind a l1 in
          let lt = block_of sb role f k bn a f' g (omega arith) in
          (
            a,
            f',
            t1,
            t1,
            direct_logged_new sb bn a f f' t t1 e (==→eq (f.ip.addrs bn) 0 gone) (
                log_balloc_ok sb a t lt one (charge_fits bm ind t 1 fits)
                  (omega (arith, charge-length bm ind l1, c1))),
            g,
            log_block_ok a t1 (omega (arith, charge-length bm ind l2, c1, c2))
                ∙ ap (λ x. ok (record t { blocks = x })) (absorbed a l2 (in_log_added a l1)),
            refl,
            omega (arith, later l2, c1, c2),
          )
    ]

indirect_stage :
    (sb : Superblock) (role : ℕ → ℕ) (f : File) (k : ℕ) (t : Trans)
    → IsFile sb role f
    → sb.size ≤ bpb
    → HasRoom sb f.disk (suc k)
    → charge sb.bmapstart (f.ip.addrs ndirect) t.blocks + 2 ≤ t.limit
    → (f' : File) × (t1 : Trans) × (bmap_direct_logged sb ndirect f t
        ≡ ok (f'.ip.addrs ndirect, f', t1))
      × GetsIndirect sb role f k f'
      × (t1.limit ≡ t.limit)
      × (charge sb.bmapstart (f'.ip.addrs ndirect) t1.blocks
          ≤ charge sb.bmapstart (f.ip.addrs ndirect) t.blocks)
indirect_stage sb role f k t h one room fits =
    let (f', e, g) = get_indirect sb role f k h room in
    let bm = sb.bmapstart in
    let ind = f'.ip.addrs ndirect in
    let l = t.blocks in
    elim (Bool-cases (f.ip.addrs ndirect == 0)) [
      | inr has ↦
          let ne = ==→ne (f.ip.addrs ndirect) 0 has in
          let same : ind ≡ f.ip.addrs ndirect = ap (λ x. x.ip.addrs ndirect) (g.old ne) in
          (
            f',
            t,
            direct_logged_old sb ndirect ind f f' t e ne,
            g,
            refl,
            charge_same bm (f.ip.addrs ndirect) ind l (λ _. same),
          )
      | inl gone ↦
          let z = ==→eq (f.ip.addrs ndirect) 0 gone in
          let l1 = with_block_number bm l in
          let l2 = with_block_number ind l1 in
          let t1 : Trans = record t { blocks = l2 } in
          let c0 = charge_same bm (f.ip.addrs ndirect) ind l (λ ne. absurd (ne z)) in
          let c1 = charge_map bm ind l in
          let c2 = charge_indirect bm ind l1 g.there in
          let role_ind = g.file.indirect g.there in
          let lt = (g.file.placed.taken ind (λ w. omega (arith, role_ind, w))).0 in
          (
            f',
            t1,
            direct_logged_new sb ndirect ind f f' t t1 e z (
                log_balloc_ok sb ind t lt one (charge_fits bm (f.ip.addrs ndirect) t 1 fits)
                  (omega (arith, charge-length bm ind l1, c0, c1))),
            g,
            refl,
            omega (arith, c0, c1, c2),
          )
    ]

entry_round :
    (sb : Superblock) (role : ℕ → ℕ) (f : File) (k i : ℕ) (t : Trans)
    → IsFile sb role f
    → i < nindirect
    → sb.size ≤ bpb
    → f.ip.addrs ndirect ≢ 0
    → HasRoom sb f.disk (suc k)
    → charge sb.bmapstart (f.ip.addrs ndirect) t.blocks + 2 ≤ t.limit
    → (a : ℕ) × (f' : File) × (t1 : Trans) × (t2 : Trans) × (bmap_entry_logged sb
          (f.ip.addrs ndirect)
          i
          f
          t
        ≡ ok (a, f', t1))
      × Gets sb role f k (ndirect + i) a f'
      × (log_block a t1 ≡ ok t2)
      × (t2.limit ≡ t.limit)
      × (charge sb.bmapstart (f'.ip.addrs ndirect) t2.blocks
          ≤ charge sb.bmapstart (f.ip.addrs ndirect) t.blocks + 1)
entry_round sb role f k i t h hi one there room fits =
    let (a, f', e, g) = get_entry sb role f k i h hi there room in
    let bm = sb.bmapstart in
    let ind = f.ip.addrs ndirect in
    let l = t.blocks in
    let word = read_u32 (f.disk ind) (4 * i) in
    let later = λ (x : List ℕ). charge_same bm ind (f'.ip.addrs ndirect) x g.indirect_same in
    elim (Bool-cases (word == 0)) [
      | inr has ↦ (
        a,
        f',
        t,
        record t { blocks = with_block_number a l },
        entry_logged_old sb ind i a f f' t e (==→ne word 0 has),
        g,
        log_block_ok a t (charge_fits bm ind t 1 fits),
        refl,
        omega (arith, later (with_block_number a l), charge_any bm ind a l),
      )
      | inl gone ↦
          let l1 = with_block_number bm l in
          let l2 = with_block_number a l1 in
          let l3 = with_block_number ind l2 in
          let t1 : Trans = record t { blocks = l2 } in
          let t2 : Trans = record t { blocks = l3 } in
          let c1 = charge_map bm ind l in
          let c2 = charge_any bm ind a l1 in
          let c3 = charge_indirect bm ind l2 there in
          let lt = block_of sb role f k (ndirect + i) a f' g (omega arith) in
          (
            a,
            f',
            t2,
            t2,
            entry_logged_new sb ind i a f f' t t1 t2 e (==→eq word 0 gone)
                (log_balloc_ok sb a t lt one (charge_fits bm ind t 1 fits)
                  (omega (arith, charge-length bm ind l1, c1)))
                (log_block_ok ind t1 (omega (arith, charge-length bm ind l2, c1, c2))),
            g,
            log_block_ok a t2 (omega (arith, charge-length bm ind l3, c1, c2, c3))
                ∙ ap (λ x. ok (record t { blocks = x })) (absorbed a l3 (in_log_kept a ind l1)),
            refl,
            omega (arith, later l3, c1, c2, c3),
          )
    ]

-- The two ways through `bmap`.
pub round_logs :
    (sb : Superblock) (role : ℕ → ℕ) (f : File) (k bn : ℕ) (t : Trans)
    → IsFile sb role f
    → bn < maxfile
    → sb.size ≤ bpb
    → HasRoom sb f.disk (suc (suc k))
    → charge sb.bmapstart (f.ip.addrs ndirect) t.blocks + 2 ≤ t.limit
    → (a : ℕ) × (f' : File) × (t1 : Trans) × (t2 : Trans) × RoundLogs sb role f k bn t a f' t1 t2
unfolding bmap_logged ◌>>=◌
round_logs sb role f k bn t h hb one room fits = elim (Bool-cases (ltb bn ndirect)) [
  | inl q ↦
      let (a, f', t1, t2, e, g, b, same, c) =
        direct_round sb role f k bn t h (ltb→lt bn ndirect q) one
          (HasRoom-less sb f.disk (suc k) (suc (suc k)) (omega arith) room) fits in
      (
        a,
        f',
        t1,
        t2,
        record { mapped = rw q e; gets = g; block_logged = b; limit = same; charged = c },
      )
  | inr q ↦
      let le = ltb→le bn ndirect q in
      let hi : bn - ndirect < nindirect = omega arith in
      let (f1, u, e1, g1, s1, c1) = indirect_stage sb role f (suc k) t h one room fits in
      let (a, f2, t1, t2, e2, g2, b, s2, c2) =
        entry_round sb g1.role' f1 k (bn - ndirect) u g1.file hi one g1.there g1.room
          (omega (arith, c1, s1)) in
      let back : ndirect + (bn - ndirect) ≡ bn = omega arith in
      (
        a,
        f2,
        t1,
        t2,
        record {
          mapped = rw (q, lt→ltb (bn - ndirect) nindirect hi, e1) e2;
          gets =
              Gets-after sb role f f1 f2 k (suc k) bn a g1
                (subst (λ x. Gets sb g1.role' f1 k x a f2) back g2) hb le;
          block_logged = b;
          limit = s2 ∙ s1;
          charged = omega (arith, c1, c2);
        },
      )
]

-- ===== src/Fs/Writei.antt =====
-- kernel/fs.c: `writei` as a whole, with its `iupdate`.
use mp.Prelude.{
  ℕ, ◌+◌, ◌-◌, ◌*◌, ◌/◌, ◌%◌, ◌^◌, ◌≤◌, ◌<◌, max, ◌≡◌, refl, sym, ap, ◌∙◌, subst, ◌≢◌, inl, inr,
  true, false, length, ltb, if◌then◌else◌, ◌||◌, arith, ltb, ◌==◌, if◌then◌else◌, ==→ne, Bool-cases,
  ok, ◌>>=◌,
}
use mp.Prelude.Int.{pos}
use mp.Param.{bsize}
use mp.Words.{read_u32}
use mp.Str.{Memory}
use mp.Fs.{Superblock, bpb, bblock, bit}
use mp.Fs.Bitmap.{used}
use mp.Fs.Content.{ndirect, maxfile, iblock, File, iupdate}
use mp.Fs.Dinode.{iupdate_other}
use mp.Fs.ReadWrite.{CopyIn, write_from, writei}
use mp.Fs.Trans.{Trans, with_block_number, log_block}
use mp.Fs.LogRoom.{charge_start, log_block_ok}
use mp.Fs.Layout.{addr_at, IsPlaced, IsFile}
use mp.Fs.Room.{HasRoom, HasRoom-same}
use mp.Fs.Gets.{addr_role}
use mp.Fs.ByteAt.{byte_at}
use mp.Fs.Write.{Delivers, write_from-Wrote, written, Wrote}

pub iupdate_ip : (sb : Superblock) (f : File) → (iupdate sb f).ip ≡ f.ip
unfolding iupdate
iupdate_ip sb f = refl

-- Blocks with a role are no inode blocks.
iupdate_role :
    (sb : Superblock) (role : ℕ → ℕ) (f : File) (b : ℕ)
    → IsFile sb role f
    → role b ≢ 0
    → (iupdate sb f).disk b ≡ f.disk b
iupdate_role sb role f b h ne = iupdate_other sb f b (λ e. ne (ap role (sym e) ∙ h.placed.no_inode))

iupdate-used :
    (sb : Superblock) (role : ℕ → ℕ) (f : File) (n : ℕ)
    → IsFile sb role f
    → n < sb.size
    → used sb (iupdate sb f).disk n ≡ used sb f.disk n
iupdate-used sb role f n h hn =
    ap (λ b. bit b (n % bpb))
      (iupdate_other sb f (bblock n sb) (λ e. h.placed.inode_apart n hn (sym e)))

iupdate-IsPlaced :
    (sb : Superblock) (role : ℕ → ℕ) (f : File)
    → IsFile sb role f
    → IsPlaced sb role f.ip.inum (iupdate sb f).disk
iupdate-IsPlaced sb role f h =
    let p = h.placed in
    let same = λ (n : ℕ) (hn : n < sb.size). iupdate-used sb role f n h hn in
    record {
      small = p.small;
      laid = λ n hn. same (bblock n sb) (p.inside n hn) ∙ p.laid n hn;
      inside = p.inside;
      boot = same 0 (omega (arith, p.inode_taken.0)) ∙ p.boot;
      zero_role = p.zero_role;
      taken = λ c nc. let t = p.taken c nc in (t.0, same c t.0 ∙ t.1);
      no_map = p.no_map;
      no_inode = p.no_inode;
      inode_apart = p.inode_apart;
      inode_taken = (p.inode_taken.0, same (iblock f.ip.inum sb) p.inode_taken.0 ∙ p.inode_taken.1);
    }

indirect_kept :
    (sb : Superblock) (role : ℕ → ℕ) (f : File)
    → IsFile sb role f
    → f.ip.addrs ndirect ≢ 0
    → (iupdate sb f).disk (f.ip.addrs ndirect) ≡ f.disk (f.ip.addrs ndirect)
indirect_kept sb role f h has =
    iupdate_role sb role f (f.ip.addrs ndirect) h (λ z. omega (arith, h.indirect has, z))

pub iupdate-IsFile :
    (sb : Superblock) (role : ℕ → ℕ) (f : File) → IsFile sb role f → IsFile sb role (iupdate sb f)
iupdate-IsFile sb role f h =
    let e = iupdate_ip sb f in
    let f' : File = record { ip = f.ip; disk = (iupdate sb f).disk } in
    let whole : f' ≡ iupdate sb f =
      ap (λ c. record { ip = c; disk = (iupdate sb f).disk }) (sym e) in
    subst (IsFile sb role) whole (record {
      placed = iupdate-IsPlaced sb role f h;
      direct = h.direct;
      indirect = h.indirect;
      data_blocks = λ k hk has nz.
          let q = ap (λ b. read_u32 b (4 * k)) (indirect_kept sb role f h has) in
          ap role q ∙ h.data_blocks k hk has (λ z. nz (q ∙ z));
    })

iupdate-addr_at :
    (sb : Superblock) (role : ℕ → ℕ) (f : File) (j : ℕ)
    → IsFile sb role f
    → addr_at (iupdate sb f) j ≡ addr_at f j
iupdate-addr_at sb role f j h =
    ap (λ c. addr_at (record { ip = c; disk = (iupdate sb f).disk }) j) (iupdate_ip sb f)
    ∙ (elim (Bool-cases (f.ip.addrs ndirect == 0)) [
      | inl z ↦ rw z refl
      | inr z ↦
          ap
            (λ b.
              if ltb j ndirect
              then f.ip.addrs j
              else if f.ip.addrs ndirect == 0
              then 0
              else read_u32 b (4 * (j - ndirect)))
            (indirect_kept sb role f h (==→ne (f.ip.addrs ndirect) 0 z))
    ])

pub iupdate-byte_at :
    (sb : Superblock) (role : ℕ → ℕ) (f : File) (x : ℕ)
    → IsFile sb role f
    → x / bsize < maxfile
    → byte_at (iupdate sb f) x ≡ byte_at f x
iupdate-byte_at sb role f x h lt =
    let a = addr_at f (x / bsize) in
    let same = iupdate-addr_at sb role f (x / bsize) h in
    elim (Bool-cases (a == 0)) [
      | inl z ↦ rw (same, z) refl
      | inr z ↦
          let ne = ==→ne a 0 z in
          rw (same, z)
            (ap (λ b. b (x % bsize))
              (iupdate_role sb role f a h
                (λ w. omega (arith, addr_role sb role f (x / bsize) h lt ne, w))))
    ]

-- The size that `writei` sets.
grow : ℕ → File → File
grow off f = record f { ip = if ltb f.ip.size off then record (f.ip) { size = off } else f.ip }

grow_size : (off : ℕ) (f : File) → (grow off f).ip.size ≡ max f.ip.size off
unfolding grow
grow_size off f = elim (Bool-cases (ltb f.ip.size off)) [
  | inl q ↦ rw q (ground arith)
  | inr q ↦ rw q (ground arith)
]

grow-IsFile :
    (sb : Superblock) (role : ℕ → ℕ) (off : ℕ) (f : File)
    → IsFile sb role f
    → IsFile sb role (grow off f)
unfolding grow
grow-IsFile sb role off f h = elim (Bool-cases (ltb f.ip.size off)) [
  | inl q ↦ rw q (record {
    placed = h.placed;
    direct = h.direct;
    indirect = h.indirect;
    data_blocks = h.data_blocks;
  })
  | inr q ↦ rw q h
]

grow_same :
    (off : ℕ) (f : File)
    → ((grow off f).ip.type ≡ f.ip.type)
      × ((grow off f).ip.inum ≡ f.ip.inum)
      × ((x : ℕ) → byte_at (grow off f) x ≡ byte_at f x)
      × ((j : ℕ) → addr_at (grow off f) j ≡ addr_at f j)
unfolding grow
grow_same off f = elim (Bool-cases (ltb f.ip.size off)) [
  | inl q ↦ rw q (refl, refl, (λ x. refl), λ j. refl)
  | inr q ↦ rw q (refl, refl, (λ x. refl), λ j. refl)
]

-- What `writei` of `n` bytes leaves.
pub record Writes (sb : Superblock) (f : File) (m : Memory) (src off n : ℕ) (f' : File)
    : Type 0 where
  pub role' : ℕ → ℕ
  pub file : IsFile sb role' f'
  pub bytes : (x : ℕ) → x / bsize < maxfile → byte_at f' x ≡ written f m src off n x
  pub stays : (j : ℕ) → j < maxfile → addr_at f j ≢ 0 → addr_at f' j ≢ 0
  pub fills : (x : ℕ) → x / bsize < maxfile → off ≤ x → x < off + n → addr_at f' (x / bsize) ≢ 0
  pub size : f'.ip.size ≡ max f.ip.size (off + n)
  pub type : f'.ip.type ≡ f.ip.type
  pub inum : f'.ip.inum ≡ f.ip.inum

Writes-end :
    (sb : Superblock) (f f1 : File) (m : Memory) (src off n k : ℕ)
    → Wrote sb f m src off n k f1
    → Writes sb f m src off n (iupdate sb (grow (off + n) f1))
Writes-end sb f f1 m src off n k w =
    let f2 = grow (off + n) f1 in
    let h2 = grow-IsFile sb w.role' (off + n) f1 w.file in
    let (t, i, b, a) = grow_same (off + n) f1 in
    let e = iupdate_ip sb f2 in
    record {
      role' = w.role';
      file = iupdate-IsFile sb w.role' f2 h2;
      bytes = λ x hx. iupdate-byte_at sb w.role' f2 x h2 hx ∙ b x ∙ w.bytes x hx;
      stays =
          λ j hj ne z. w.stays j hj ne (sym (a j) ∙ sym (iupdate-addr_at sb w.role' f2 j h2) ∙ z);
      fills = λ x hx lo hi z.
          w.fills x hx lo hi
            (sym (a (x / bsize)) ∙ sym (iupdate-addr_at sb w.role' f2 (x / bsize) h2) ∙ z);
      size = ap (λ c. c.size) e ∙ grow_size (off + n) f1 ∙ ap (λ z. max z (off + n)) w.size;
      type = ap (λ c. c.type) e ∙ t ∙ w.type;
      inum = ap (λ c. c.inum) e ∙ i ∙ w.inum;
    }

writei_ok :
    {S : Type 0} (copy : CopyIn S) (sb : Superblock) (src off n : ℕ) (f f1 : File) (t t1 t2 : Trans)
    (st : S)
    → 0 < n
    → off ≤ f.ip.size
    → off + n ≤ maxfile * bsize
    → write_from copy sb off src n n f t st ≡ ok (off + n, f1, t1)
    → log_block (iblock f1.ip.inum sb) t1 ≡ ok t2
    → writei copy sb src off n f t st ≡ ok (pos n, iupdate sb (grow (off + n) f1), t2)
unfolding writei grow ◌>>=◌
writei_ok copy sb src off n f f1 t t1 t2 st some_bytes le fits e l =
    let small : (off + n) % 2 ^ 32 ≡ off + n = omega arith in
    let a : (ltb f.ip.size off || ltb (off + n) off) ≡ false = ground arith in
    let b : ltb (maxfile * bsize) (off + n) ≡ false = ground arith in
    let c : ltb 0 n ≡ true = ground arith in rw (small, a, b, e, c, l) refl

iupdate-HasRoom :
    (sb : Superblock) (role : ℕ → ℕ) (f : File) (k : ℕ)
    → IsFile sb role f
    → HasRoom sb f.disk k
    → HasRoom sb (iupdate sb f).disk k
iupdate-HasRoom sb role f k h room =
    HasRoom-same sb f.disk (iupdate sb f).disk k (λ n hn. iupdate-used sb role f n h hn) room

grow_disk : (off : ℕ) (f : File) → (grow off f).disk ≡ f.disk
unfolding grow
grow_disk off f = refl

-- The log has room for one block of each round and three more, the blocks of the map, of the indirect
-- entries and of the inode. The map of the disk is one block.
pub record HasLog (sb : Superblock) (t : Trans) (rounds : ℕ) : Type 0 where
  pub one_map : sb.size ≤ bpb
  pub space : length t.blocks + rounds + 3 ≤ t.limit

-- `writei` of bytes that the copy delivers, with the blocks that are left.
pub writei-HasRoom :
    {S : Type 0} (copy : CopyIn S) (st : S) (sb : Superblock) (role : ℕ → ℕ)
    (src off n rounds k : ℕ) (f : File) (t : Trans) (m : Memory)
    → Delivers copy st m src (src + n)
    → IsFile sb role f
    → 0 < n
    → off ≤ f.ip.size
    → off + n ≤ maxfile * bsize
    → (off + n - 1) / bsize < off / bsize + rounds
    → HasRoom sb f.disk (2 * rounds + k)
    → HasLog sb t rounds
    → (f' : File) × (t' : Trans) × (writei copy sb src off n f t st ≡ ok (pos n, f', t'))
      × Writes sb f m src off n f'
      × HasRoom sb f'.disk k
writei-HasRoom copy st sb role src off n rounds k f t m dl h some_bytes le fits many room lg =
    let (f1, t1, e, w, free) =
      write_from-Wrote copy st src (src + n) sb role off src n n rounds k f t m dl (omega arith)
        (omega arith) lg.one_map h (omega arith) fits (inr many) room
        (omega (arith, lg.space, charge_start sb.bmapstart (f.ip.addrs ndirect) t.blocks)) in
    let h2 = grow-IsFile sb w.role' (off + n) f1 w.file in
    let b = iblock f1.ip.inum sb in
    let t2 : Trans = record t1 { blocks = with_block_number b t1.blocks } in
    (
      iupdate sb (grow (off + n) f1),
      t2,
      writei_ok copy sb src off n f f1 t t1 t2 st some_bytes le fits e (log_block_ok b t1 free),
      Writes-end sb f f1 m src off n k w,
      iupdate-HasRoom sb w.role' (grow (off + n) f1) k h2
          (subst (λ d. HasRoom sb d k) (sym (grow_disk (off + n) f1)) w.room),
    )

-- `writei` of bytes that the copy delivers, inside a file of at most MAXFILE blocks, at or below its end,
-- returns the number of bytes without a panic, with two free blocks for each block that it touches, and
-- with room in the log for each of these blocks and three more. The file then has those bytes from `off`
-- on and every other byte as before, its size covers them, and its blocks still lie apart from each
-- other and from the map.
pub writei_lem :
    {S : Type 0} (copy : CopyIn S) (st : S) (sb : Superblock) (role : ℕ → ℕ) (src off n rounds : ℕ)
    (f : File) (t : Trans) (m : Memory)
    → Delivers copy st m src (src + n)
    → IsFile sb role f
    → 0 < n
    → off ≤ f.ip.size
    → off + n ≤ maxfile * bsize
    → (off + n - 1) / bsize < off / bsize + rounds
    → HasRoom sb f.disk (2 * rounds)
    → HasLog sb t rounds
    → (f' : File) × (t' : Trans) × (writei copy sb src off n f t st ≡ ok (pos n, f', t'))
      × Writes sb f m src off n f'
writei_lem copy st sb role src off n rounds f t m dl h some_bytes le fits many room lg =
    let z : 2 * rounds ≡ 2 * rounds + 0 = omega arith in
    let (f', t', e, w, _) =
      writei-HasRoom copy st sb role src off n rounds 0 f t m dl h some_bytes le fits many
        (subst (HasRoom sb f.disk) z room) lg in
    (f', t', e, w)

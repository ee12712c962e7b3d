-- ===== src/Fs/Write.antt =====
-- kernel/fs.c: `writei` from a kernel address, byte by byte.
use mp.Prelude.{
  ℕ, zero, suc, ◌+◌, ◌-◌, ◌*◌, ◌/◌, ◌%◌, ◌≤◌, ◌<◌, ◌≡◌, refl, sym, ap, ◌∙◌, subst, ◌≢◌, ◌⊎◌, inl,
  inr, true, false, length, ◌&&◌, arith, ltb, leb, ◌==◌, if◌then◌else◌, ltb→lt, ltb→le, ==→eq,
  ==→ne, Bool-cases, ok, ◌>>=◌,
}
use mp.Prelude.Update.{update, update_ne}
use mp.Param.{bsize}
use mp.Words.{Bytes}
use mp.Str.{Memory}
use mp.Fs.{Superblock, bpb, bblock, bit}
use mp.Fs.Content.{ndirect, maxfile, File}
use mp.Fs.ReadWrite.{CopyIn, stored, kernel_in, piece, write_from}
use mp.Fs.Trans.{Trans, log_block, bmap_logged}
use mp.Fs.LogRoom.{charge, charge-length}
use mp.Fs.LogRound.{round_logs}
use mp.Fs.Layout.{addr_at, IsFile}
use mp.Fs.Room.{HasRoom, HasRoom-same, HasRoom-less}
use mp.Fs.Gets.{addr_role, Gets}
use mp.Fs.ByteAt.{
  with_block_addr, byte_there, byte_at, Gets-byte_at, with_block, with_block-IsFile,
  with_block-byte_at,
}

-- The byte at `x` once `n` bytes of memory from `src` on are at `off`.
abbrev pub written : File → Memory → ℕ → ℕ → ℕ → ℕ → ℕ
written f m src off n x = if leb off x && ltb x (off + n) then m (src + (x - off)) else byte_at f x

-- What the loop of `writei` leaves.
pub record Wrote (sb : Superblock) (f : File) (m : Memory) (src off n k : ℕ) (f' : File)
    : Type 0 where
  pub role' : ℕ → ℕ
  pub file : IsFile sb role' f'
  pub bytes : (x : ℕ) → x / bsize < maxfile → byte_at f' x ≡ written f m src off n x
  pub stays : (j : ℕ) → j < maxfile → addr_at f j ≢ 0 → addr_at f' j ≢ 0
  pub fills : (x : ℕ) → x / bsize < maxfile → off ≤ x → x < off + n → addr_at f' (x / bsize) ≢ 0
  pub size : f'.ip.size ≡ f.ip.size
  pub type : f'.ip.type ≡ f.ip.type
  pub inum : f'.ip.inum ≡ f.ip.inum
  pub room : HasRoom sb f'.disk k

-- The piece of one round, in one block.
one_block :
    (f : File) (m : Memory) (b : Bytes) (src off n x y : ℕ)
    → off % bsize + n ≤ bsize
    → (x / bsize ≡ off / bsize → b (x % bsize) ≡ y)
    → (if x / bsize == off / bsize
        then (if leb (off % bsize) (x % bsize) && ltb (x % bsize) (off % bsize + n)
            then m (src + (x % bsize - off % bsize))
            else b (x % bsize))
        else y)
      ≡ (if leb off x && ltb x (off + n) then m (src + (x - off)) else y)
one_block f m b src off n x y fits same = elim (Bool-cases (x / bsize == off / bsize)) [
  | inl here ↦
      let e : x / bsize ≡ off / bsize = ==→eq (x / bsize) (off / bsize) here in
      let t : (leb (off % bsize) (x % bsize) && ltb (x % bsize) (off % bsize + n))
          ≡ (leb off x && ltb x (off + n)) =
        ground arith in
      rw (here, t, same e)
        (elim (Bool-cases (leb off x && ltb x (off + n))) [
          | inl q ↦ let d : x % bsize - off % bsize ≡ x - off = ground arith in rw (q, d) refl
          | inr q ↦ rw q refl
        ])
  | inr there ↦
      let ne = ==→ne (x / bsize) (off / bsize) there in
      let t : (leb off x && ltb x (off + n)) ≡ false = ground arith in rw (there, t) refl
]

write_one :
    (sb : Superblock) (role : ℕ → ℕ) (f f1 : File) (m : Memory) (src off n k a : ℕ)
    → off / bsize < maxfile
    → off % bsize + n ≤ bsize
    → Gets sb role f k (off / bsize) a f1
    → (b : Bytes) → b ≡ stored (f1.disk a) (off % bsize) src n m
    → Wrote sb f m src off n k (with_block f1 a b)
write_one sb role f f1 m src off n k a lt fits g b e =
    let eb : (o : ℕ)
        → b o ≡ (
            if leb (off % bsize) o && ltb o (off % bsize + n)
            then m (src + (o - off % bsize))
            else f1.disk a o) =
      λ o. ap (λ h. h o) e in
    record {
      role' = g.role';
      file = with_block-IsFile sb g.role' f1 (off / bsize) a b g.file lt g.at g.there;
      bytes = λ x hx.
          with_block-byte_at sb g.role' f1 (off / bsize) a x b g.file lt g.at g.there hx
          ∙ ap (λ c. if x / bsize == off / bsize then c else byte_at f1 x) (eb (x % bsize))
          ∙ one_block f1 m (f1.disk a) src off n x (byte_at f1 x) fits
              (λ q. sym (byte_there f1 x a (ap (addr_at f1) q ∙ g.at) g.there))
          ∙ ap (λ c. if leb off x && ltb x (off + n) then m (src + (x - off)) else c)
              (Gets-byte_at sb role f f1 k (off / bsize) a x g hx);
      stays = λ j hj ne z. elim (Bool-cases (j == off / bsize)) [
        | inl q ↦
            let e : j ≡ off / bsize = ==→eq j (off / bsize) q in
            g.there (sym g.at ∙ ap (addr_at f1) (sym e) ∙ sym (moved_addr j) ∙ z)
        | inr q ↦ ne (sym (g.same j hj (==→ne j (off / bsize) q)) ∙ sym (moved_addr j) ∙ z)
      ];
      fills = λ x hx lo hi z.
          let e : x / bsize ≡ off / bsize = omega arith in
          g.there (sym g.at ∙ ap (addr_at f1) (sym e) ∙ sym (moved_addr (x / bsize)) ∙ z);
      size = g.size;
      type = g.type;
      inum = g.inum;
      room =
          HasRoom-same sb f1.disk (update f1.disk a b) k
            (λ i hi.
              ap (λ c. bit c (i % bpb))
                (update_ne f1.disk a (bblock i sb) b
                  (λ z. omega (arith, ap g.role' z, g.file.placed.no_map i hi, block_role))))
            g.room;
    }
  where
    moved_addr : (j : ℕ) → addr_at (with_block f1 a b) j ≡ addr_at f1 j
    moved_addr j = with_block_addr sb g.role' f1 (off / bsize) a j b g.file lt g.at g.there

    block_role : g.role' a ≡ off / bsize + 1
    block_role =
        ap g.role' (sym g.at)
        ∙ addr_role sb g.role' f1 (off / bsize) g.file lt (λ w. g.there (sym g.at ∙ w))

-- Two pieces after each other are one.
pub two_pieces :
    (m : Memory) (src off n p x y : ℕ)
    → (if leb (off + n) x && ltb x (off + n + p)
        then m (src + n + (x - (off + n)))
        else if leb off x && ltb x (off + n)
        then m (src + (x - off))
        else y)
      ≡ (if leb off x && ltb x (off + (n + p)) then m (src + (x - off)) else y)
two_pieces m src off n p x y = elim (Bool-cases (leb (off + n) x)) [
  | inl late ↦
      let q : src + n + (x - (off + n)) ≡ src + (x - off) = ground arith in rw q (ground arith)
  | inr early ↦ ground arith
]

Wrote-trans :
    (sb : Superblock) (f f1 f2 : File) (m : Memory) (src off n p j k : ℕ)
    → Wrote sb f m src off n j f1
    → Wrote sb f1 m (src + n) (off + n) p k f2
    → Wrote sb f m src off (n + p) k f2
Wrote-trans sb f f1 f2 m src off n p j k g h = record {
  role' = h.role';
  file = h.file;
  bytes = λ x hx.
      h.bytes x hx
      ∙ ap
          (λ c. if leb (off + n) x && ltb x (off + n + p) then m (src + n + (x - (off + n))) else c)
          (g.bytes x hx)
      ∙ two_pieces m src off n p x (byte_at f x);
  stays = λ j hj ne. h.stays j hj (g.stays j hj ne);
  fills = λ x hx lo hi. elim (Bool-cases (ltb x (off + n))) [
    | inl q ↦ h.stays (x / bsize) hx (g.fills x hx lo (ltb→lt x (off + n) q))
    | inr q ↦ h.fills x hx (ltb→le x (off + n) q) (omega (arith, hi))
  ];
  size = h.size ∙ g.size;
  type = h.type ∙ g.type;
  inum = h.inum ∙ g.inum;
  room = h.room;
}

pub piece_bounds :
    (off left : ℕ)
    → (0 < piece off (suc left))
      × (piece off (suc left) ≤ suc left)
      × (off % bsize + piece off (suc left) ≤ bsize)
      × (piece off (suc left) < suc left → (off + piece off (suc left)) / bsize ≡ off / bsize + 1)
piece_bounds off left = (omega arith, omega arith, omega arith, λ h. omega arith)

-- The copy delivers the bytes of `m` between `lo` and `hi`, as `copyin` does of pages that are mapped.
abbrev pub Delivers : {S : Type 0} → CopyIn S → S → Memory → ℕ → ℕ → Type 0
Delivers copy st m lo hi =
    (dst : Bytes) (o s len : ℕ)
    → lo ≤ s
    → s + len ≤ hi
    → o + len ≤ bsize
    → copy dst o s len st ≡ (true, stored dst o s len m)

pub kernel_in-Delivers : (m : Memory) (lo hi : ℕ) → Delivers kernel_in m m lo hi
kernel_in-Delivers m lo hi dst o s len a b c = refl

write_from_done :
    {S : Type 0} (copy : CopyIn S) (sb : Superblock) (off src fuel : ℕ) (f : File) (t : Trans)
    (st : S)
    → write_from copy sb off src 0 fuel f t st ≡ ok (off, f, t)
unfolding write_from
write_from_done copy sb off src fuel f t st = refl

write_from_step :
    {S : Type 0} (copy : CopyIn S) (sb : Superblock) (off src left fuel a : ℕ) (f f1 : File)
    (t t1 t2 : Trans) (st : S) (m : Memory)
    → bmap_logged sb (off / bsize) f t ≡ ok (a, f1, t1)
    → log_block a t1 ≡ ok t2
    → let n = piece off (suc left) in
      let b = stored (f1.disk a) (off % bsize) src n m in
      copy (f1.disk a) (off % bsize) src n st ≡ (true, b)
      → write_from copy sb off src (suc left) (suc fuel) f t st
        ≡ write_from copy sb (off + n) (src + n) (suc left - n) fuel (with_block f1 a b) t2 st
unfolding write_from ◌>>=◌
write_from_step copy sb off src left fuel a f f1 t t1 t2 st m e l c =
    let n = piece off (suc left) in
    rw (e, c, l)
      (ap
        (λ x.
          write_from copy sb (off + n) (src + n) (suc left - n) fuel (with_block f1 a x.1) t2 st)
        c)

-- The log has room for the rounds that are left, and for the `iupdate` after them.
abbrev pub HasSpace : Superblock → File → Trans → ℕ → Type 0
HasSpace sb f t rounds = charge sb.bmapstart (f.ip.addrs ndirect) t.blocks + rounds + 1 ≤ t.limit

-- Two blocks are enough for each block of the file that the write touches, and `k` more are left; and
-- one block in the log for each, beside the map, the indirect block and the inode.
pub write_from-Wrote :
    {S : Type 0} (copy : CopyIn S) (st : S) (lo hi : ℕ) (sb : Superblock) (role : ℕ → ℕ)
    (off src left fuel rounds k : ℕ) (f : File) (t : Trans) (m : Memory)
    → Delivers copy st m lo hi
    → lo ≤ src
    → src + left ≤ hi
    → sb.size ≤ bpb
    → IsFile sb role f
    → left ≤ fuel
    → off + left ≤ maxfile * bsize
    → (left ≡ 0) ⊎ ((off + left - 1) / bsize < off / bsize + rounds)
    → HasRoom sb f.disk (2 * rounds + k)
    → HasSpace sb f t rounds
    → (f' : File) × (t' : Trans) × (write_from copy sb off src left fuel f t st
        ≡ ok (off + left, f', t'))
      × Wrote sb f m src off left k f'
      × (length t'.blocks < t'.limit)
write_from-Wrote copy st lo hi sb role off src zero fuel rounds k f t m dl a b one h le fits many
      room space =
    let q : off + 0 ≡ off = omega arith in
    (
      f,
      t,
      write_from_done copy sb off src fuel f t st ∙ ap (λ x. ok (x, f, t)) (sym q),
      record {
        role' = role;
        file = h;
        bytes = λ x _. let w : (leb off x && ltb x (off + 0)) ≡ false = ground arith in rw w refl;
        stays = λ j _ ne. ne;
        fills = λ x _ lo hi. absurd (omega arith);
        size = refl;
        type = refl;
        inum = refl;
        room = HasRoom-less sb f.disk k (2 * rounds + k) (omega arith) room;
      },
      omega (arith, space, charge-length sb.bmapstart (f.ip.addrs ndirect) t.blocks),
    )
write_from-Wrote copy st lo hi sb role off src (suc left) zero rounds k f t m dl a b one h le fits
      many room space =
    absurd (omega arith)
write_from-Wrote copy st lo hi sb role off src (suc left) (suc fuel) zero k f t m dl a b one h le
      fits many room space =
    elim many [ inl z ↦ absurd (omega arith) | inr lt ↦ absurd (omega arith) ]
write_from-Wrote copy st lo hi sb role off src (suc left) (suc fuel) (suc rounds) k f t m dl a b one
      h le fits many room space =
    let n = piece off (suc left) in
    let (some_bytes, most, in_block, next) = piece_bounds off left in
    let lt : off / bsize < maxfile = omega arith in
    let two : 2 * suc rounds + k ≡ suc (suc (2 * rounds + k)) = omega arith in
    let (addr, f1, t1, t2, r) =
      round_logs sb role f (2 * rounds + k) (off / bsize) t h lt one
        (subst (HasRoom sb f.disk) two room) (omega (arith, space)) in
    let block = stored (f1.disk addr) (off % bsize) src n m in
    let w1 =
      write_one sb role f f1 m src off n (2 * rounds + k) addr lt in_block r.gets block refl in
    let whole : n + (suc left - n) ≡ suc left = omega (arith, most) in
    let more : (suc left - n ≡ 0)
        ⊎ ((off + n + (suc left - n) - 1) / bsize < (off + n) / bsize + rounds) =
      elim (Bool-cases (ltb n (suc left))) [
        | inl q ↦ inr (more_rounds off n left rounds most (next (ltb→lt n (suc left) q)) many)
        | inr q ↦ inl (ground arith)
      ] in
    let (f2, t3, e2, w, free) =
      write_from-Wrote copy st lo hi sb w1.role' (off + n) (src + n) (suc left - n) fuel rounds k
        (with_block f1 addr block) t2 m dl (omega (arith, a)) (omega (arith, b, most)) one w1.file
        (omega (arith, some_bytes)) (omega (arith, most)) more w1.room
        (omega (arith, space, r.charged, r.limit)) in
    let sum : off + n + (suc left - n) ≡ off + suc left = omega (arith, most) in
    (
      f2,
      t3,
      write_from_step copy sb off src left fuel addr f f1 t t1 t2 st m r.mapped r.block_logged
            (dl (f1.disk addr) (off % bsize) src n a (omega (arith, b, most)) in_block)
          ∙ e2
          ∙ ap (λ x. ok (x, f2, t3)) sum,
      subst (λ l. Wrote sb f m src off l k f2) whole
          (Wrote-trans sb f (with_block f1 addr block) f2 m src off n (suc left - n)
            (2 * rounds + k) k w1 w),
      free,
    )
  where
    more_rounds :
        (off n left rounds : ℕ)
        → n ≤ suc left
        → (off + n) / bsize ≡ off / bsize + 1
        → (suc left ≡ 0) ⊎ ((off + suc left - 1) / bsize < off / bsize + suc rounds)
        → (off + n + (suc left - n) - 1) / bsize < (off + n) / bsize + rounds
    more_rounds off n left rounds le step (inl z) = absurd (omega arith)
    more_rounds off n left rounds le step (inr lt) =
        let q : off + n + (suc left - n) - 1 ≡ off + suc left - 1 = omega arith in
        rw q (omega (arith, lt, step))

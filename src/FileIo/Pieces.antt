-- ===== src/FileIo/Pieces.antt =====
-- kernel/file.c: the pieces of `filewrite` on an inode add up to one write.
use mp.Prelude.{
  ℕ, zero, suc, ◌+◌, ◌-◌, ◌*◌, ◌/◌, ◌%◌, ◌^◌, ◌≤◌, ◌<◌, min, max, ◌≡◌, refl, sym, ap, ap₂, ◌∙◌,
  subst, inl, inr, true, false, ◌&&◌, arith, ltb, leb, ◌==◌, if◌then◌else◌, ltb→lt, ltb→le, le→ltb,
  ==_refl, Bool-cases, ok, ◌>>=◌,
}
use mp.Prelude.Int.{pos}
use mp.Param.{bsize}
use mp.Str.{Memory}
use mp.Fs.{Superblock}
use mp.Fs.Content.{maxfile, File}
use mp.Fs.ReadWrite.{CopyIn, writei}
use mp.Fs.Trans.{Trans}
use mp.Fs.Layout.{IsFile}
use mp.Fs.Room.{HasRoom}
use mp.Fs.ByteAt.{byte_at}
use mp.Fs.Write.{Delivers, two_pieces}
use mp.Fs.Writei.{HasLog, Writes, writei-HasRoom}
use mp.FileIo.{max_piece, write_pieces}

Writes-trans :
    (sb : Superblock) (f f1 f2 : File) (m : Memory) (src off n p : ℕ)
    → Writes sb f m src off n f1
    → Writes sb f1 m (src + n) (off + n) p f2
    → Writes sb f m src off (n + p) f2
Writes-trans sb f f1 f2 m src off n p g h = record {
  role' = h.role';
  file = h.file;
  bytes = λ x hx.
      h.bytes x hx
      ∙ ap
          (λ c. if leb (off + n) x && ltb x (off + n + p) then m (src + n + (x - (off + n))) else c)
          (g.bytes x hx)
      ∙ two_pieces m src off n p x (byte_at f x);
  stays = λ j hj ne. h.stays j hj (g.stays j hj ne);
  fills = λ x hx lo hi. elim (Bool-cases (ltb x (off + n))) [
    | inl q ↦ h.stays (x / bsize) hx (g.fills x hx lo (ltb→lt x (off + n) q))
    | inr q ↦ h.fills x hx (ltb→le x (off + n) q) (omega (arith, hi))
  ];
  size = h.size ∙ ap (λ z. max z (off + n + p)) g.size ∙ one_size f.ip.size off n p;
  type = h.type ∙ g.type;
  inum = h.inum ∙ g.inum;
}
  where
    one_size : (s off n p : ℕ) → max (max s (off + n)) (off + n + p) ≡ max s (off + (n + p))
    one_size s off n p = omega arith

-- The empty write, at or below the end.
Writes-none :
    (sb : Superblock) (role : ℕ → ℕ) (f : File) (m : Memory) (src off : ℕ)
    → IsFile sb role f
    → off ≤ f.ip.size
    → Writes sb f m src off 0 f
Writes-none sb role f m src off h le = record {
  role' = role;
  file = h;
  bytes = λ x _. let w : (leb off x && ltb x (off + 0)) ≡ false = ground arith in rw w refl;
  stays = λ j _ ne. ne;
  fills = λ x _ lo hi. absurd (omega arith);
  size = omega arith;
  type = refl;
  inum = refl;
}

pub write_pieces-step :
    {S : Type 0} (copy : CopyIn S) (st : S) (sb : Superblock) (begin : ℕ → Trans)
    (addr i left fuel off : ℕ) (x x' : File) (t : Trans)
    → let n = min (suc left) max_piece in
      writei copy sb (addr + i) off n x (begin i) st ≡ ok (pos n, x', t)
      → off + n < 2 ^ 32
      → write_pieces copy sb begin addr i (suc left) (suc fuel) off x st
        ≡ write_pieces copy sb begin addr (i + n) (suc left - n) fuel (off + n) x' st
unfolding write_pieces ◌>>=◌
write_pieces-step copy st sb begin addr i left fuel off x x' t e small =
    let n = min (suc left) max_piece in
    let same : (n == n) ≡ true = ==_refl n in
    let w : (off + n) % 2 ^ 32 ≡ off + n = omega arith in
    let z : ltb n 0 ≡ false = le→ltb n 0 (omega arith) in
    rw (e, same, z)
      (ap (λ o. write_pieces copy sb begin addr (i + n) (suc left - n) fuel o x' st) w)

pub write_pieces_done :
    {S : Type 0} (copy : CopyIn S) (st : S) (sb : Superblock) (begin : ℕ → Trans)
    (addr i fuel off : ℕ) (x : File)
    → write_pieces copy sb begin addr i 0 fuel off x st ≡ ok (i, off, x)
unfolding write_pieces
write_pieces_done copy st sb begin addr i fuel off x = refl

-- A piece is at most three blocks long, and touches at most four.
four_blocks : (off n : ℕ) → 0 < n → n ≤ max_piece → (off + n - 1) / bsize < off / bsize + 4
four_blocks off n h le = omega arith

pub write_pieces-Writes :
    {S : Type 0} (copy : CopyIn S) (st : S) (lo hi : ℕ) (sb : Superblock) (begin : ℕ → Trans)
    (role : ℕ → ℕ) (addr i left fuel off pieces : ℕ) (x : File) (m : Memory)
    → Delivers copy st m lo hi
    → lo ≤ addr
    → addr + (i + left) ≤ hi
    → ((j : ℕ) → HasLog sb (begin j) 4)
    → IsFile sb role x
    → left ≤ fuel
    → left ≤ max_piece * pieces
    → off ≤ x.ip.size
    → off + left ≤ maxfile * bsize
    → HasRoom sb x.disk (8 * pieces)
    → (x' : File) × (write_pieces copy sb begin addr i left fuel off x st
        ≡ ok (i + left, off + left, x'))
      × Writes sb x m (addr + i) off left x'
write_pieces-Writes copy st lo hi sb begin role addr i zero fuel off pieces x m dl a b lg h le many
      end fits room =
    let i0 : i + 0 ≡ i = omega arith in
    let off0 : off + 0 ≡ off = omega arith in
    (
      x,
      write_pieces_done copy st sb begin addr i fuel off x
          ∙ ap₂ (λ j o. ok (j, o, x)) (sym i0) (sym off0),
      Writes-none sb role x m (addr + i) off h end,
    )
write_pieces-Writes copy st lo hi sb begin role addr i (suc left) zero off pieces x m dl a b lg h le
      many end fits room =
    absurd (omega arith)
write_pieces-Writes copy st lo hi sb begin role addr i (suc left) (suc fuel) off zero x m dl a b lg
      h le many end fits room =
    absurd (omega arith)
write_pieces-Writes copy st lo hi sb begin role addr i (suc left) (suc fuel) off (suc pieces) x m dl
      a b lg h le many end fits room =
    let n = min (suc left) max_piece in
    let some_bytes : 0 < n = omega arith in
    let most : n ≤ suc left = omega arith in
    let eight : 8 * suc pieces ≡ 2 * 4 + 8 * pieces = omega arith in
    let (x1, t1, e, w, room1) =
      writei-HasRoom copy st sb role (addr + i) off n 4 (8 * pieces) x (begin i) m
        (λ dst o s len p q. dl dst o s len (omega (arith, p, a)) (omega (arith, q, b, most))) h
        some_bytes end (omega (arith, most)) (four_blocks off n some_bytes (omega arith))
        (subst (HasRoom sb x.disk) eight room) (lg i) in
    let sz = w.size in
    let (x2, e2, w2) =
      write_pieces-Writes copy st lo hi sb begin w.role' addr (i + n) (suc left - n) fuel (off + n)
        pieces x1 m dl a (omega (arith, b, most)) lg w.file (omega (arith, some_bytes))
        (omega arith) (omega (arith, sz)) (omega (arith, most)) room1 in
    let whole : n + (suc left - n) ≡ suc left = omega (arith, most) in
    let at : i + n + (suc left - n) ≡ i + suc left = omega (arith, most) in
    let until : off + n + (suc left - n) ≡ off + suc left = omega (arith, most) in
    let from : addr + (i + n) ≡ addr + i + n = omega arith in
    (
      x2,
      write_pieces-step copy st sb begin addr i left fuel off x x1 t1 e (omega (arith, most))
          ∙ e2
          ∙ ap₂ (λ j o. ok (j, o, x2)) at until,
      subst (λ l. Writes sb x m (addr + i) off l x2) whole
          (Writes-trans sb x x1 x2 m (addr + i) off n (suc left - n) w
            (subst (λ a. Writes sb x1 m a (off + n) (suc left - n) x2) from w2)),
    )

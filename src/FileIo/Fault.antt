-- ===== src/FileIo/Fault.antt =====
-- kernel/file.c: `filewrite` where the copy from the caller fails at once, as at an address that is not
-- mapped.
use mp.Prelude.{
  ℕ, zero, suc, ◌+◌, ◌-◌, ◌*◌, ◌/◌, ◌%◌, ◌^◌, ◌≤◌, ◌<◌, min, ◌≡◌, refl, sym, ap, ◌∙◌, fun_ext,
  subst, ◌≢◌, inl, inr, true, false, ◌||◌, arith, ltb, ◌==◌, lt→ltb, ltb→le, ==→eq, ne→==,
  Bool-cases, length, ok, ◌>>=◌,
}
use mp.Prelude.Int.{pos}
use mp.Prelude.Update.{update}
use mp.Param.{bsize}
use mp.Words.{Bytes, read_u32}
use mp.Pipe.{Pipe}
use mp.Files.{File, fd_inode}
use mp.Fs.{Superblock, Disk}
use mp.Fs.Content
use mp.Fs.Content.{ndirect, nindirect, maxfile, iblock, bmap, bmap_direct, bmap_entry, iupdate}
use mp.Fs.Trans.{Trans, with_block_number, bmap_direct_logged, bmap_entry_logged, bmap_logged}
use mp.Fs.LogRoom.{log_block_ok}
use mp.Fs.Layout.{addr_at, IsFile}
use mp.Fs.ByteAt.{byte_at}
use mp.Fs.ReadWrite.{CopyIn, piece, write_from, writei}
use mp.Fs.Write.{piece_bounds}
use mp.Fs.Writei.{iupdate-byte_at, iupdate_ip}
use mp.FileIo.{max_piece, write_pieces, filewrite}
use mp.FileIo.Pieces.{write_pieces-step, write_pieces_done}
use mp.FileIo.Transfer.{Caller, filewrite_ok}

-- `either_copyin` from the address returns -1 and has copied nothing.
abbrev pub Fails : {S : Type 0} → CopyIn S → S → ℕ → Type 0
Fails copy st s =
    (dst : Bytes) (o len : ℕ) → 0 < len → o + len ≤ bsize → copy dst o s len st ≡ (false, dst)

-- A block that is there takes nothing from the log.
bmap_logged_there :
    (sb : Superblock) (f : Content.File) (bn : ℕ) (t : Trans)
    → bn < maxfile
    → addr_at f bn ≢ 0
    → bmap_logged sb bn f t ≡ ok (addr_at f bn, f, t)
unfolding bmap_logged bmap_direct_logged bmap_entry_logged bmap_direct bmap_entry ◌>>=◌
bmap_logged_there sb f bn t lt ne = elim (Bool-cases (ltb bn ndirect)) [
  | inl q ↦
      let e : addr_at f bn ≡ f.ip.addrs bn = rw q refl in
      let z = ne→== (f.ip.addrs bn) 0 (λ w. ne (e ∙ w)) in rw (q, z) refl
  | inr q ↦ elim (Bool-cases (f.ip.addrs ndirect == 0)) [
    | inl none_there ↦ let e : addr_at f bn ≡ 0 = rw (q, none_there) refl in absurd (ne e)
    | inr has ↦
        let e : addr_at f bn ≡ read_u32 (f.disk (f.ip.addrs ndirect)) (4 * (bn - ndirect)) =
          rw (q, has) refl in
        let z =
          ne→== (read_u32 (f.disk (f.ip.addrs ndirect)) (4 * (bn - ndirect))) 0 (λ w. ne (e ∙ w)) in
        let small : ltb (bn - ndirect) nindirect ≡ true =
          lt→ltb (bn - ndirect) nindirect (omega (arith, ltb→le bn ndirect q)) in
        rw (q, small, has, z) refl
  ]
]

update_same : (d : Disk) (a : ℕ) → update d a (d a) ≡ d
update_same d a =
    fun_ext
      λ j. elim (Bool-cases (a == j)) [ inl q ↦ rw q (ap d (==→eq a j q)) | inr q ↦ rw q refl ]

write_from_fault :
    {S : Type 0} (copy : CopyIn S) (st : S) (sb : Superblock) (off src left fuel : ℕ)
    (f : Content.File) (t : Trans)
    → Fails copy st src
    → off / bsize < maxfile
    → addr_at f (off / bsize) ≢ 0
    → write_from copy sb off src (suc left) (suc fuel) f t st ≡ ok (off, f, t)
unfolding write_from ◌>>=◌
write_from_fault copy st sb off src left fuel f t fails lt ne =
    let a = addr_at f (off / bsize) in
    let (some_bytes, _, in_block, _) = piece_bounds off left in
    let c = fails (f.disk a) (off % bsize) (piece off (suc left)) some_bytes in_block in
    rw (bmap_logged_there sb f (off / bsize) t lt ne, c)
      (ap (λ y. ok (off, record f { disk = update f.disk a y.1 }, t)) c
        ∙ ap (λ d. ok (off, record f { disk = d }, t)) (update_same f.disk a))

writei_fault :
    {S : Type 0} (copy : CopyIn S) (st : S) (sb : Superblock) (src off left : ℕ) (f : Content.File)
    (t : Trans)
    → Fails copy st src
    → off ≤ f.ip.size
    → off + suc left ≤ maxfile * bsize
    → addr_at f (off / bsize) ≢ 0
    → length t.blocks < t.limit
    → (t' : Trans) × (writei copy sb src off (suc left) f t st
        ≡ ok (pos (suc left), iupdate sb f, t'))
unfolding writei ◌>>=◌
writei_fault copy st sb src off left f t fails le fits ne room =
    let n = suc left in
    let small : (off + n) % 2 ^ 32 ≡ off + n = omega arith in
    let a : (ltb f.ip.size off || ltb (off + n) off) ≡ false = ground arith in
    let b : ltb (maxfile * bsize) (off + n) ≡ false = ground arith in
    let c : ltb 0 n ≡ true = ground arith in
    let g : ltb f.ip.size off ≡ false = ground arith in
    let e = write_from_fault copy st sb off src left left f t fails (omega arith) ne in
    let l = log_block_ok (iblock f.ip.inum sb) t room in
    (
      record t { blocks = with_block_number (iblock f.ip.inum sb) t.blocks },
      rw (small, a, b, e, c, g, l) refl,
    )

no_pieces :
    {S : Type 0} (copy : CopyIn S) (st : S) (sb : Superblock) (begin : ℕ → Trans)
    (addr i j left fuel off : ℕ) (x : Content.File)
    → i ≡ j
    → left ≡ 0
    → write_pieces copy sb begin addr i left fuel off x st ≡ ok (j, off, x)
no_pieces copy st sb begin addr i j left fuel off x e z =
    ap (λ l. write_pieces copy sb begin addr i l fuel off x st) z
    ∙ write_pieces_done copy st sb begin addr i fuel off x
    ∙ ap (λ c. ok (c, off, x)) e

-- Where the copy from the caller fails at once, `filewrite` of at most one piece to a block of the file
-- that is there still returns `n` and moves the offset past `n` bytes, with room in the log for the inode;
-- but the inode, its size too, and every byte of the file are as before.
pub filewrite_fault :
    {S : Type 0} (copy : CopyIn S) (st : S) (sb : Superblock) (begin : ℕ → Trans) (role : ℕ → ℕ)
    (k : Caller) (addr n : ℕ) (f : File) (p : Pipe) (x : Content.File)
    → Fails copy st addr
    → f.kind ≡ fd_inode
    → f.writable ≡ true
    → IsFile sb role x
    → 0 < n
    → n ≤ max_piece
    → f.off ≤ x.ip.size
    → f.off + n ≤ maxfile * bsize
    → addr_at x (f.off / bsize) ≢ 0
    → length (begin 0).blocks < (begin 0).limit
    → (x' : Content.File) × (filewrite copy k.user k.killed k.devsw sb begin addr n f p x st
        ≡ ok (pos n, record f { off = f.off + n }, p, x'))
      × (x'.ip ≡ x.ip)
      × ((y : ℕ) → y / bsize < maxfile → byte_at x' y ≡ byte_at x y)
filewrite_fault copy st sb begin role k addr zero f p x fails kind wr h pos_n few le fits ne room =
    absurd (omega arith)
filewrite_fault copy st sb begin role k addr (suc left) f p x fails kind wr h pos_n few le fits ne
      room =
    let n = suc left in
    let x' = iupdate sb x in
    let a : addr + 0 ≡ addr = omega arith in
    let one : min n max_piece ≡ n = omega arith in
    let at : 0 + n ≡ n = omega arith in
    let none_left : n - n ≡ 0 = omega arith in
    let (t, e) =
      writei_fault copy st sb (addr + 0) f.off left x (begin 0)
        (subst (Fails copy st) (sym a) fails) le fits ne room in
    let e' =
      subst (λ l. writei copy sb (addr + 0) f.off l x (begin 0) st ≡ ok (pos l, x', t)) (sym one)
        e in
    (
      x',
      filewrite_ok copy st sb begin k addr n (f.off + n) f p x x' kind wr (
          write_pieces-step copy st sb begin addr 0 left left f.off x x' t e' (omega arith)
          ∙ subst
              (λ l.
                write_pieces copy sb begin addr (0 + l) (n - l) left (f.off + l) x' st
                ≡ ok (n, f.off + n, x'))
              (sym one)
              (no_pieces copy st sb begin addr (0 + n) n (n - n) left (f.off + n) x' at none_left)),
      iupdate_ip sb x,
      λ y hy. iupdate-byte_at sb role x y h hy,
    )

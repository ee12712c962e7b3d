-- ===== src/FileIo/Transfer.antt =====
-- kernel/file.c: `filewrite` and `fileread` on an inode, and one after the other.
use mp.Prelude.{
  ℕ, ◌+◌, ◌*◌, ◌%◌, ◌^◌, ◌≤◌, ◌<◌, ◌≡◌, refl, sym, ap, ◌∙◌, subst, Bool, true, Option, [], arith,
  ◌==◌, ==_refl, ok, ◌>>=◌,
}
use mp.Prelude.Int.{pos}
use mp.Param.{bsize}
use mp.Str.{Memory}
use mp.Pipe.{Pipe}
use mp.Files.{File, fd_inode}
use mp.Fs.{Superblock}
use mp.Fs.Content
use mp.Fs.Content.{maxfile}
use mp.Fs.ReadWrite.{CopyOut, CopyIn, readi}
use mp.Fs.Trans.{Trans}
use mp.Fs.Write.{Delivers}
use mp.Fs.Layout.{IsFile}
use mp.Fs.Room.{HasRoom}
use mp.Fs.Writei.{HasLog, Writes}
use mp.Fs.Read.{Stores, HasNoHole, is_readable_type, readi-Writes}
use mp.FileIo.{Devsw, max_piece, write_pieces, filewrite, fileread}
use mp.FileIo.Pieces.{write_pieces-Writes}

-- The caller: its bytes for `pipewrite`, whether `piperead` can store them, `killed`, and the devices.
pub record Caller : Type 0 where
  pub user : ℕ → Option ℕ
  pub writable : ℕ → Bool
  pub killed : Bool
  pub devsw : Devsw

pub filewrite_ok :
    {S : Type 0} (copy : CopyIn S) (st : S) (sb : Superblock) (begin : ℕ → Trans) (k : Caller)
    (addr n off : ℕ) (f : File) (p : Pipe) (x x' : Content.File)
    → f.kind ≡ fd_inode
    → f.writable ≡ true
    → write_pieces copy sb begin addr 0 n n f.off x st ≡ ok (n, off, x')
    → filewrite copy k.user k.killed k.devsw sb begin addr n f p x st
      ≡ ok (pos n, record f { off = off }, p, x')
unfolding filewrite ◌>>=◌
filewrite_ok copy st sb begin k addr n off f p x x' kind w e =
    let same : (n == n) ≡ true = ==_refl n in simp (w, kind, e, same) refl

-- `filewrite` of `n` bytes that the copy from the caller delivers to an inode, from an offset at or below
-- its end, returns `n` without a panic, writes exactly those bytes and moves the offset past them, however
-- many transactions it takes: each one writes at most three blocks' length. The file stays below MAXFILE
-- blocks, and for each transaction eight blocks of the disk are free and seven of the log, of the
-- MAXOPBLOCKS that `begin_op` reserves.
pub filewrite_lem :
    {S : Type 0} (copy : CopyIn S) (st : S) (sb : Superblock) (begin : ℕ → Trans) (role : ℕ → ℕ)
    (k : Caller) (addr n pieces : ℕ) (f : File) (p : Pipe) (x : Content.File) (m : Memory)
    → Delivers copy st m addr (addr + n)
    → ((i : ℕ) → HasLog sb (begin i) 4)
    → f.kind ≡ fd_inode
    → f.writable ≡ true
    → IsFile sb role x
    → n ≤ max_piece * pieces
    → f.off ≤ x.ip.size
    → f.off + n ≤ maxfile * bsize
    → HasRoom sb x.disk (8 * pieces)
    → (x' : Content.File) × (filewrite copy k.user k.killed k.devsw sb begin addr n f p x st
        ≡ ok (pos n, record f { off = f.off + n }, p, x'))
      × Writes sb x m addr f.off n x'
filewrite_lem copy st sb begin role k addr n pieces f p x m dl lg kind wr h many le fits room =
    let (x', e, w) =
      write_pieces-Writes copy st addr (addr + n) sb begin role addr 0 n n f.off pieces x m dl
        (omega arith) (omega arith) lg h (omega arith) many le fits room in
    let a : addr + 0 ≡ addr = omega arith in
    let b : 0 + n ≡ n = omega arith in
    (
      x',
      filewrite_ok copy st sb begin k addr n (f.off + n) f p x x' kind wr
          (e ∙ ap (λ i. ok (i, f.off + n, x')) b),
      subst (λ s. Writes sb x m s f.off n x') a w,
    )

fileread_ok :
    {S : Type 0} (copy : CopyOut S) (sb : Superblock) (k : Caller) (addr n r : ℕ) (f : File)
    (p : Pipe) (x : Content.File) (m m' : S)
    → f.kind ≡ fd_inode
    → f.readable ≡ true
    → f.off + r < 2 ^ 32
    → readi copy sb addr f.off n x m ≡ ok (pos r, x, m')
    → fileread copy k.writable k.killed k.devsw sb addr n f p x m
      ≡ ok (pos r, [], record f { off = f.off + r }, p, x, m')
unfolding fileread ◌>>=◌
fileread_ok copy sb k addr n r f p x m m' kind rd small e =
    let w : (f.off + r) % 2 ^ 32 ≡ f.off + r = omega arith in simp (rd, kind, e, w) refl

-- Bytes that one open file wrote from a caller whose copy delivers them, another open file of the inode at
-- the same offset reads back, for a caller to whom the copy stores bytes, and both offsets are past them,
-- with the room on the disk and in the log that the write takes.
pub fileread-filewrite :
    {S T : Type 0} (copy : CopyIn S) (st : S) (back : CopyOut T) (view : T → Memory)
    (good : T → Type 0) (reader : T) (sb : Superblock) (begin : ℕ → Trans) (role : ℕ → ℕ)
    (k : Caller) (src dst n pieces : ℕ) (f g : File) (p : Pipe) (x : Content.File) (m : Memory)
    → Delivers copy st m src (src + n)
    → Stores back view good dst (dst + n)
    → good reader
    → ((i : ℕ) → HasLog sb (begin i) 4)
    → f.kind ≡ fd_inode
    → f.writable ≡ true
    → g.kind ≡ fd_inode
    → g.readable ≡ true
    → g.off ≡ f.off
    → IsFile sb role x
    → is_readable_type x.ip.type ≡ true
    → HasNoHole x
    → x.ip.size ≤ maxfile * bsize
    → n ≤ max_piece * pieces
    → f.off ≤ x.ip.size
    → f.off + n ≤ maxfile * bsize
    → HasRoom sb x.disk (8 * pieces)
    → (x' : Content.File) × (reader' : T) × (filewrite copy k.user k.killed k.devsw sb begin src n f
          p x st
        ≡ ok (pos n, record f { off = f.off + n }, p, x'))
      × (fileread back k.writable k.killed k.devsw sb dst n g p x' reader
          ≡ ok (pos n, [], record g { off = g.off + n }, p, x', reader'))
      × ((j : ℕ) → j < n → view reader' (dst + j) ≡ m (src + j))
fileread-filewrite copy st back view good reader sb begin role k src dst n pieces f g p x m dl sc gd
      lg fk fw gk gr at h t full limit many le fits room =
    let (x', e, w) =
      filewrite_lem copy st sb begin role k src n pieces f p x m dl lg fk fw h many le fits room in
    let (m', r, same) =
      readi-Writes back view good reader sb src dst f.off n x x' m sc gd w t full limit le fits in
    let r' = subst (λ o. readi back sb dst o n x' reader ≡ ok (pos n, x', m')) (sym at) r in
    (x', m', e, fileread_ok back sb k dst n n g p x' reader m' gk gr (omega (arith, at)) r', same)

-- ===== src/FileIo.antt =====
-- kernel/file.c: `fileread`, `filewrite` and `filestat`, over the pipes, the inodes and the devices.
-- `n` is not negative. A block is its contents in the transaction; `begin i` is the transaction when
-- the `begin_op` of the round at `i` returns.
pub mod Pieces
pub mod Transfer
pub mod Fault
pub mod User
mod Tests
use mp.Prelude.{
  ℕ, zero, suc, ◌+◌, ◌-◌, ◌*◌, ◌/◌, ◌%◌, ◌^◌, ◌≤◌, ◌<◌, min, max, ◌≡◌, refl, sym, ap, ap₂, ◌∙◌,
  fun_ext, subst, ◌≢◌, ◌↔◌, ◌⊎◌, inl, inr, Bool, true, false, not, ◌&&◌, ◌||◌, Option, none, some,
  List, [], ◌∷◌, ◌++◌, map, reverse, append-nil, append_assoc, arith, ltb, leb, ◌==◌, if◌then◌else◌,
  ltb→lt, lt→ltb, ltb→le, le→ltb, leb→le, ==→eq, eq→==, ==→ne, ne→==, ==_refl, Bool-cases,
  Option-cases, All, length, get_or, set, take, drop, length-append, length-set, get_or-set_self,
  get_or-set_ne, length-take, Distinct, Outcome, ok, panic, asleep, ◌>>=◌, >>=-eq-ok, Ensures,
  Ensures-bind, Ensures-return,
}
use mp.Prelude.Int.{ℤ, pos, negsuc, eqb, ltz, minus_one, eqb→eq, to_int, incr, decr, sub_int}
use mp.Param.{
  nofile, nfile, nproc, ninode, ndev, root_dev, max_op_blocks, log_size, nbuf, fs_size,
  logical_disk_size, disk1_start_block, bsize,
}
use mp.Pipe.{
  pipe_size, Pipe, new_pipe, pipeclose, uint_inc, is_full, is_empty, put, get, Writing, returned,
  waiting, pipewrite, Reading, read_loop, piperead,
}
use mp.Files.{File, fd_pipe, fd_inode, fd_device, fd_none}
use mp.Fs.{Superblock}
use mp.Fs.Trans.{Trans}
use mp.Fs.Content.{stati, Stat}
use mp.Fs.Content
use mp.Fs.ReadWrite.{
  CopyOut, CopyIn, kernel_out, stored, kernel_in, piece, read_from, readi, write_from, writei,
}

-- `devsw[major].read` and `devsw[major].write`: what a device makes of the address and the count.
abbrev pub Devsw : Type 0
Devsw = ℕ → Option (ℕ → ℕ → ℤ)

-- `f->major < 0 || f->major >= NDEV || !devsw[f->major].write`; `major` is a 16-bit pattern.
unfoldable pub call_device : Devsw → ℕ → ℕ → ℕ → ℤ
call_device devsw major addr n =
    if leb (2 ^ 15) major || leb ndev major
    then minus_one
    else elim (devsw major) [ none ↦ minus_one | some call ↦ call addr n ]

-- `max` of `filewrite`.
abbrev pub max_piece : ℕ
max_piece = (max_op_blocks - 1 - 1 - 2) / 2 * bsize

-- `f->off += r` for `r` above 0.
abbrev pub advance : ℕ → ℤ → ℕ
advance off (pos r) = (off + r) % 2 ^ 32
advance off (negsuc r) = off

-- The loop of `filewrite` on an inode, with `left` for `n - i`: `i` and the offset after it. Each round
-- that goes on moves at least one byte.
unfoldable pub write_pieces :
    {S : Type 0}
    → CopyIn S
    → Superblock
    → (ℕ → Trans)
    → ℕ
    → ℕ
    → ℕ
    → ℕ
    → ℕ
    → Content.File
    → S
    → Outcome (ℕ × ℕ × Content.File)
write_pieces copy sb begin addr i zero fuel off x m = ok (i, off, x)
write_pieces copy sb begin addr i (suc left) zero off x m = ok (i, off, x)
write_pieces copy sb begin addr i (suc left) (suc fuel) off x m = do
  let n1 = min (suc left) max_piece
  (r, x', t) ← writei copy sb (addr + i) off n1 x (begin i) m
  let rest = write_pieces copy sb begin addr (i + n1) (suc left - n1) fuel (advance off r) x' m
  if ltz r (pos 0) then ok (i, off, x') else if not (eqb r (pos n1)) then panic else rest

-- What `filewrite` returns, the file with its offset, the pipe and the inode. A `pipewrite` that has to
-- wait is asleep.
unfoldable pub filewrite :
    {S : Type 0}
    → CopyIn S
    → (ℕ → Option ℕ)
    → Bool
    → Devsw
    → Superblock
    → (ℕ → Trans)
    → ℕ
    → ℕ
    → File
    → Pipe
    → Content.File
    → S
    → Outcome (ℤ × File × Pipe × Content.File)
filewrite copy user killed devsw sb begin addr n f p x m =
    if not f.writable then ok (minus_one, f, p, x) else elim f.kind [
      | fd_pipe ↦ elim (pipewrite user killed 0 n p) [
        | returned r p' ↦ ok (r, f, p', x)
        | waiting i p' ↦ asleep
      ]
      | fd_device ↦ ok (call_device devsw f.major addr n, f, p, x)
      | fd_inode ↦ write_pieces copy sb begin addr 0 n n f.off x m >>= λ (i, off, x').
          ok (if i == n then pos n else minus_one, record f { off = off }, p, x')
      | fd_none ↦ panic
    ]

-- The same of `fileread`, with the caller's memory, and the bytes that `piperead` delivers.
unfoldable pub fileread :
    {S : Type 0}
    → CopyOut S
    → (ℕ → Bool)
    → Bool
    → Devsw
    → Superblock
    → ℕ
    → ℕ
    → File
    → Pipe
    → Content.File
    → S
    → Outcome (ℤ × List ℕ × File × Pipe × Content.File × S)
fileread copy writable killed devsw sb addr n f p x m =
    if not f.readable then ok (minus_one, [], f, p, x, m) else elim f.kind [
      | fd_pipe ↦ elim (piperead writable killed n p) [
        | returned r bytes p' ↦ ok (r, bytes, f, p', x, m)
        | waiting p' ↦ asleep
      ]
      | fd_device ↦ ok (call_device devsw f.major addr n, [], f, p, x, m)
      | fd_inode ↦ readi copy sb addr f.off n x m >>= λ (r, x', m').
          ok (r, [], record f { off = advance f.off r }, p, x', m')
      | fd_none ↦ panic
    ]

-- `filestat`; `put` is the `copyout` of the `struct stat`, none where it fails.
unfoldable pub filestat : {S : Type 0} → (Stat → S → Option S) → File → Content.File → S → ℤ × S
filestat put f x m = elim f.kind [
  | fd_inode ↦ elim (put (stati x.ip) m) [ none ↦ (minus_one, m) | some m' ↦ (pos 0, m') ]
  | fd_device ↦ elim (put (stati x.ip) m) [ none ↦ (minus_one, m) | some m' ↦ (pos 0, m') ]
  | fd_pipe ↦ (minus_one, m)
  | fd_none ↦ (minus_one, m)
]

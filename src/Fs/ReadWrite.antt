-- ===== src/Fs/ReadWrite.antt =====
-- kernel/fs.c: `readi` and `writei`, given `either_copyout` and `either_copyin` of kernel/proc.c.
use mp.Prelude.{
  ℕ, zero, suc, ◌+◌, ◌-◌, ◌*◌, ◌/◌, ◌%◌, ◌^◌, min, Bool, true, false, not, ◌&&◌, ◌||◌, Option, none,
  some, ltb, leb, ◌==◌, if◌then◌else◌, Outcome, ok, ◌>>=◌,
}
use mp.Prelude.Int.{ℤ, pos, minus_one}
use mp.Prelude.Update.{update}
use mp.Param.{bsize}
use mp.Words.{Bytes}
use mp.Str.{Memory}
use mp.Fs.{Superblock}
use mp.Fs.Content.{maxfile, iblock, File, iupdate, bmap}
use mp.Fs.Trans.{Trans, log_block, bmap_logged}

-- `either_copyout(user_dst, dst, src, len)` with the bytes from `o` on as the source, and
-- `either_copyin(dst, user_src, src, len)` as the bytes with `len` of them replaced from `o` on. The
-- state `S` is what the caller's memory is; none or false is a return of -1. An `either_copyin` that
-- fails may have replaced some of the bytes.
abbrev pub CopyOut : Type 0 → Type 0
CopyOut S = ℕ → Bytes → ℕ → ℕ → S → Option S

abbrev pub CopyIn : Type 0 → Type 0
CopyIn S = Bytes → ℕ → ℕ → ℕ → S → Bool × Bytes

-- Both, of a kernel address: `memmove`.
abbrev pub kernel_out : CopyOut Memory
kernel_out dst src o len m =
    some (λ a. if leb dst a && ltb a (dst + len) then src (o + (a - dst)) else m a)

abbrev pub stored : Bytes → ℕ → ℕ → ℕ → Memory → Bytes
stored dst o src len m a = if leb o a && ltb a (o + len) then m (src + (a - o)) else dst a

abbrev pub kernel_in : CopyIn Memory
kernel_in dst o src len m = (true, stored dst o src len m)

-- `m` of both loops: the bytes to the end of the block, at most those left.
abbrev pub piece : ℕ → ℕ → ℕ
piece off left = min left (bsize - off % bsize)

-- The loop of `readi`, with `left` for `n - tot`. A round moves at least one byte.
unfoldable pub read_from :
    {S : Type 0} → CopyOut S → Superblock → ℕ → ℕ → ℕ → ℕ → ℕ → File → S → Outcome (ℕ × File × S)
read_from copy sb off dst tot zero fuel f m = ok (tot, f, m)
read_from copy sb off dst tot (suc left) zero f m = ok (tot, f, m)
read_from copy sb off dst tot (suc left) (suc fuel) f m = do
  (addr, f') ← bmap sb (off / bsize) f
  let n = piece off (suc left)
  elim (copy dst (f'.disk addr) (off % bsize) n m) [
    | none ↦ ok (tot, f', m)
    | some m' ↦ read_from copy sb (off + n) (dst + n) (tot + n) (suc left - n) fuel f' m'
  ]

unfoldable pub readi :
    {S : Type 0} → CopyOut S → Superblock → ℕ → ℕ → ℕ → File → S → Outcome (ℤ × File × S)
readi copy sb dst off n f m =
    let t = f.ip.type in
    let count = if ltb f.ip.size (off + n) then f.ip.size - off else n in
    if not (t == 2 || t == 4 || t == 1)
    then ok (minus_one, f, m)
    else if ltb f.ip.size off || ltb ((off + n) % 2 ^ 32) off
    then ok (pos 0, f, m)
    else do (tot, f', m') ← read_from copy sb off dst 0 count count f m; ok (pos tot, f', m')

-- The loop of `writei`: `off` after it, the file, and the transaction with what `log_write` added. A
-- copy that fails ends the loop before the `log_write`; its buffer keeps what was copied.
unfoldable pub write_from :
    {S : Type 0}
    → CopyIn S
    → Superblock
    → ℕ
    → ℕ
    → ℕ
    → ℕ
    → File
    → Trans
    → S
    → Outcome (ℕ × File × Trans)
write_from copy sb off src zero fuel f t m = ok (off, f, t)
write_from copy sb off src (suc left) zero f t m = ok (off, f, t)
write_from copy sb off src (suc left) (suc fuel) f t m = do
  (addr, f', t1) ← bmap_logged sb (off / bsize) f t
  let n = piece off (suc left)
  let (done, b) = copy (f'.disk addr) (off % bsize) src n m
  let f'' : File = record f' { disk = update f'.disk addr b }
  elim done [
    | false ↦ ok (off, f'', t1)
    | true ↦ log_block addr t1 >>= λ t2.
        write_from copy sb (off + n) (src + n) (suc left - n) fuel f'' t2 m
  ]

-- As in the code, the result is `n` also where the copy failed.
unfoldable pub writei :
    {S : Type 0} → CopyIn S → Superblock → ℕ → ℕ → ℕ → File → Trans → S → Outcome (ℤ × File × Trans)
writei copy sb src off n f t m =
    if ltb f.ip.size off || ltb ((off + n) % 2 ^ 32) off
    then ok (minus_one, f, t)
    else if ltb (maxfile * bsize) ((off + n) % 2 ^ 32)
    then ok (minus_one, f, t)
    else do
      (off', f', t') ← write_from copy sb off src n n f t m
      let grown = if ltb f'.ip.size off' then record (f'.ip) { size = off' } else f'.ip
      t'' ← if ltb 0 n then log_block (iblock f'.ip.inum sb) t' else ok t'
      ok (pos n, if ltb 0 n then iupdate sb (record f' { ip = grown }) else f', t'')

-- ===== src/Log.antt =====
-- kernel/log.c: the redo log, over the buffer cache.
pub mod Head
pub mod Reserve
pub mod Blocks
pub mod Faults
pub mod HeadBlock
pub mod Good
pub mod Store
pub mod Pins
pub mod Rounds
pub mod Stages
pub mod Idle
pub mod InstallRuns
pub mod IdleRounds
pub mod RecoverRuns
pub mod Recover
pub mod CrashStates
pub mod Crash
mod Tests
mod CrashTests
mod HeadTests
use mp.Prelude.{
  ℕ, zero, suc, ◌+◌, ◌-◌, ◌*◌, ◌^◌, Bool, true, false, not, ◌&&◌, ◌||◌, ◌==◌, ltb, leb,
  if◌then◌else◌, Outcome, ok, panic, asleep, ◌>>=◌,
}
use mp.Prelude.Int.{ℤ, pos, negsuc, eqb, ltz, incr, decr}
use mp.Prelude.Update.{update}
use mp.Param.{max_op_blocks, log_size}
use mp.Words.{read_u32, write_u32}
use mp.Bio.{Block, Buf, Bcache, set_buf, bread, bwrite, brelse, bpin, bunpin}

-- `struct log`, its header `lh` included, and the buffer cache that it works on. `block` is
-- `lh.block`, an array of LOGSIZE numbers.
pub record Log : Type 0 where
  pub start : ℕ
  pub size : ℕ
  pub outstanding : ℤ
  pub committing : Bool
  pub dev : ℕ
  pub n : ℕ
  pub block : ℕ → ℕ
  pub cache : Bcache

-- `log.lh.n + (log.outstanding + 1) * MAXOPBLOCKS > LOGSIZE`
abbrev pub exceeds : ℕ → ℤ → Bool
exceeds n (pos o) = ltb log_size (n + (o + 1) * max_op_blocks)
exceeds n (negsuc k) = ltb (log_size + k * max_op_blocks) n

-- One round of the loop of `begin_op`: it sleeps, or it counts the operation in.
unfoldable pub begin_op : Log → Outcome Log
begin_op l =
    if l.committing
    then asleep
    else if exceeds l.n l.outstanding
    then asleep
    else ok (record l { outstanding = incr l.outstanding })

-- The index of a block in the header from `i` on, `left` entries being left, or the end.
unfoldable pub find_block : (ℕ → ℕ) → ℕ → ℕ → ℕ → ℕ
find_block block blockno i zero = i
find_block block blockno i (suc left) =
    let rest = find_block block blockno (i + 1) left in if block i == blockno then i else rest

unfoldable pub log_write : ℕ → Log → Outcome Log
log_write b l =
    let blockno = (l.cache.bufs b).blockno in
    let i = find_block l.block blockno 0 l.n in
    let l' = record l { block = update l.block i blockno } in
    if leb log_size l.n || leb (l.size - 1) l.n
    then panic
    else if ltz l.outstanding (pos 1)
    then panic
    else ok (if i == l.n then record l' { n = l.n + 1; cache = bpin b l.cache } else l')

-- `memmove(dst->data, src->data, BSIZE)` between two buffers.
unfoldable pub copy_data : ℕ → ℕ → Bcache → Bcache
copy_data dst src s = set_buf dst (record (s.bufs dst) { bytes = (s.bufs src).bytes }) s

-- A round of the loop of `write_log`.
unfoldable pub write_log_block : ℕ → ℕ → ℕ → Bcache → Outcome Bcache
write_log_block dev to_block from_block s = do
  (to, s1) ← bread dev to_block s
  (from, s2) ← bread dev from_block s1
  s3 ← bwrite to (copy_data to from s2)
  s4 ← brelse from s3
  brelse to s4

-- The loops of `write_log` and `install_trans` from `tail` on.
unfoldable pub write_log_from : Log → ℕ → ℕ → Bcache → Outcome Bcache
write_log_from l tail zero s = ok s
write_log_from l tail (suc left) s = do
  s' ← write_log_block l.dev (l.start + tail + 1) (l.block tail) s
  write_log_from l (tail + 1) left s'

unfoldable pub write_log : Log → Outcome Log
write_log l = do s ← write_log_from l 0 l.n l.cache; ok (record l { cache = s })

-- A round of the loop of `install_trans`.
unfoldable pub install_block : ℕ → ℕ → ℕ → Bcache → Outcome Bcache
install_block dev log_block home_block s = do
  (lbuf, s1) ← bread dev log_block s
  (dbuf, s2) ← bread dev home_block s1
  s3 ← bwrite dbuf (copy_data dbuf lbuf s2)
  s4 ← brelse lbuf (bunpin dbuf s3)
  brelse dbuf s4

unfoldable pub install_from : Log → ℕ → ℕ → Bcache → Outcome Bcache
install_from l tail zero s = ok s
install_from l tail (suc left) s = do
  s' ← install_block l.dev (l.start + tail + 1) (l.block tail) s
  install_from l (tail + 1) left s'

unfoldable pub install_trans : Log → Outcome Log
install_trans l = do s ← install_from l 0 l.n l.cache; ok (record l { cache = s })

-- `struct logheader` in a block: `n` at offset 0, `block[i]` at 4 + 4 * i.
abbrev pub entry_offset : ℕ → ℕ
entry_offset i = 4 + 4 * i

-- The loop of `write_head` over `hb->block`.
unfoldable pub put_entries : (ℕ → ℕ) → ℕ → ℕ → Block → Block
put_entries block i zero b = b
put_entries block i (suc left) b =
    put_entries block (i + 1) left (write_u32 b (entry_offset i) (block i))

unfoldable pub encode_head : ℕ → (ℕ → ℕ) → Block → Block
encode_head n block b = put_entries block 0 n (write_u32 b 0 n)

unfoldable pub write_head : Log → Outcome Log
write_head l = do
  (buf, s) ← bread l.dev l.start l.cache
  let data' = encode_head l.n l.block (s.bufs buf).bytes
  s' ← bwrite buf (set_buf buf (record (s.bufs buf) { bytes = data' }) s)
  s'' ← brelse buf s'
  ok (record l { cache = s'' })

-- `lh->n` is an `int`: the loops that it bounds make no round if it is negative.
abbrev pub rounds : ℕ → ℕ
rounds n = if ltb n (2 ^ 31) then n else 0

-- The loop of `read_head` over `lh->block`.
unfoldable pub get_entries : Block → ℕ → ℕ → (ℕ → ℕ) → ℕ → ℕ
get_entries b i zero block = block
get_entries b i (suc left) block =
    get_entries b (i + 1) left (update block i (read_u32 b (entry_offset i)))

unfoldable pub read_head : Log → Outcome Log
read_head l = do
  (buf, s) ← bread l.dev l.start l.cache
  let b = (s.bufs buf).bytes
  let n = rounds (read_u32 b 0)
  s' ← brelse buf s
  ok (record l { n = n; block = get_entries b 0 n l.block; cache = s' })

unfoldable pub recover_from_log : Log → Outcome Log
recover_from_log l = do l1 ← read_head l; l2 ← install_trans l1; write_head (record l2 { n = 0 })

-- `initlog` on the zeroed `struct log`; `start` and `size` are `sb->logstart` and `sb->nlog`, and
-- `sizeof(struct logheader)`, 4 + 4 * LOGSIZE, is below BSIZE.
unfoldable pub initlog : ℕ → ℕ → ℕ → Log → Outcome Log
initlog dev logstart nlog l =
    recover_from_log (record l { start = logstart; size = nlog; dev = dev })

unfoldable pub commit : Log → Outcome Log
commit l =
    if ltb 0 l.n
    then (do
      l1 ← write_log l
      l2 ← write_head l1
      l3 ← install_trans l2
      write_head (record l3 { n = 0 }))
    else ok l

-- The part of `end_op` under the lock: whether to commit.
unfoldable pub end_op_enter : Log → Outcome (Bool × Log)
end_op_enter l =
    let l' = record l { outstanding = decr l.outstanding } in
    if l.committing
    then panic
    else if eqb l'.outstanding (pos 0)
    then ok (true, record l' { committing = true })
    else ok (false, l')

-- The rest: it commits without the lock, and clears `committing` under it.
unfoldable pub end_op_finish : Bool → Log → Outcome Log
end_op_finish false l = ok l
end_op_finish true l = do l' ← commit l; ok (record l' { committing = false })

unfoldable pub end_op : Log → Outcome Log
end_op l = do (do_commit, l') ← end_op_enter l; end_op_finish do_commit l'

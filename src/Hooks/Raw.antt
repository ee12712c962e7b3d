-- ===== src/Hooks/Raw.antt =====
-- Raw access to the disk through the buffer cache.
use mp.Prelude.{
  ℕ, ◌<◌, ◌≡◌, ◌≢◌, ◌∙◌, Bool, true, false, ◌==◌, if◌then◌else◌, none, some, arith, ok, ◌>>=◌,
}
use mp.Prelude.Int.{pos}
use mp.Param.{fs_size, root_dev}
use mp.Bio.{Bcache, Block, bget, brelse, disk_rw, set_buf, holding_buf, refcnt_dec, move_to_front}
use mp.Bio.Invariant.{bget-Got}
use mp.Hooks.{sys_raw_read, sys_raw_write, bad_pbn}

abbrev released : ℕ → Bcache → Bcache
released i s =
    let n = refcnt_dec (s.bufs i).refcnt in
    let s' = set_buf i (record (s.bufs i) { holder = none; refcnt = n }) s in
    if n == 0 then record s' { order = move_to_front i s.order } else s'

brelse_held : (i : ℕ) (s : Bcache) → holding_buf i s ≡ true → brelse i s ≡ ok (released i s)
unfolding brelse
brelse_held i s h = rw (h, brelse)

-- A release changes neither the contents nor the disk.
released_rest :
    (i : ℕ) (s : Bcache)
    → (((released i s).bufs i).bytes ≡ (s.bufs i).bytes)
      × (((released i s).bufs i).valid ≡ (s.bufs i).valid)
      × ((released i s).platter ≡ s.platter)
released_rest i s = (ground arith, ground arith, ground arith)

-- The buffer that `bget` has locked, whatever its contents.
locked_buf :
    (n i : ℕ) (s t : Bcache) (bytes : Block) (valid : Bool)
    → bget root_dev n s ≡ ok (i, t)
    → holding_buf i (set_buf i (record (t.bufs i) { bytes = bytes; valid = valid }) t) ≡ true
unfolding holding_buf
locked_buf n i s t bytes valid run =
    let g = bget-Got root_dev n s i t run in ground (arith, g.holder_is, g.pid_is)

read_body :
    (n i : ℕ) (s t : Bcache)
    → n < fs_size
    → bget root_dev n s ≡ ok (i, t)
    → let t' = set_buf i (record (t.bufs i) { bytes = t.platter (t.bufs i).blockno }) t in
      sys_raw_read (pos n) true s ≡ ok (pos 0, some (t.platter (t.bufs i).blockno), released i t')
unfolding sys_raw_read disk_rw ◌>>=◌
read_body n i s t lt run =
    let t' = set_buf i (record (t.bufs i) { bytes = t.platter (t.bufs i).blockno }) t in
    let held =
      brelse_held i t' (locked_buf n i s t (t.platter (t.bufs i).blockno) (t.bufs i).valid run) in
    let good : bad_pbn (pos n) ≡ false = ground arith in
    rw (good, sys_raw_read) (rw run (rw held (ground arith)))

-- For a block below FSSIZE that `bget` returns, and a `copyout` that succeeds, `sys_raw_read` delivers
-- what the disk holds at the block. The buffer of the block gets it too,
-- whatever it held: a change that is only in the buffer, which the log has pinned, is gone.
pub raw_read_lem :
    (n i : ℕ) (s t : Bcache)
    → n < fs_size
    → bget root_dev n s ≡ ok (i, t)
    → (s' : Bcache) × (sys_raw_read (pos n) true s ≡ ok (pos 0, some (s.platter n), s'))
      × ((s'.bufs i).bytes ≡ s.platter n)
      × ((s'.bufs i).valid ≡ (t.bufs i).valid)
      × (s'.platter ≡ s.platter)
raw_read_lem n i s t lt run =
    let g = bget-Got root_dev n s i t run in
    let at : (t.bufs i).blockno ≡ n = g.blockno_is in
    let t' = set_buf i (record (t.bufs i) { bytes = t.platter (t.bufs i).blockno }) t in
    let (bytes, valid, disk) = released_rest i t' in
    let copy : t.platter (t.bufs i).blockno ≡ s.platter n = rw (at, g.platter) in
    (
      released i t',
      read_body n i s t lt run ∙ rw copy,
      bytes ∙ ground (arith, copy),
      valid ∙ ground arith,
      disk ∙ g.platter,
    )

write_body :
    (n i : ℕ) (copyin : Block → Block) (s t : Bcache)
    → n < fs_size
    → bget root_dev n s ≡ ok (i, t)
    → let filled =
        set_buf i (record (t.bufs i) { bytes = copyin (t.bufs i).bytes; valid = true }) t in
      sys_raw_write (pos n) copyin true s ≡ ok (pos 0, released i (disk_rw i true filled))
unfolding sys_raw_write disk_rw holding_buf ◌>>=◌
write_body n i copyin s t lt run =
    let filled =
      set_buf i (record (t.bufs i) { bytes = copyin (t.bufs i).bytes; valid = true }) t in
    let held =
      brelse_held i (disk_rw i true filled)
        (locked_buf n i s t (copyin (t.bufs i).bytes) true run) in
    let good : bad_pbn (pos n) ≡ false = ground arith in
    rw (good, sys_raw_write) (rw run (rw held (ground arith)))

-- For a block below FSSIZE that `bget` returns, and a `copyin` that succeeds, `sys_raw_write` puts the
-- user's bytes at the block, in its buffer and on the disk, and writes no
-- other block of the disk, the mirror of the block among them.
pub raw_write_lem :
    (n i : ℕ) (copyin : Block → Block) (s t : Bcache)
    → n < fs_size
    → bget root_dev n s ≡ ok (i, t)
    → (s' : Bcache) × (sys_raw_write (pos n) copyin true s ≡ ok (pos 0, s'))
      × (s'.platter n ≡ copyin (t.bufs i).bytes)
      × ((m : ℕ) → m ≢ n → s'.platter m ≡ s.platter m)
      × ((s'.bufs i).bytes ≡ copyin (t.bufs i).bytes)
      × ((s'.bufs i).valid ≡ true)
unfolding disk_rw
raw_write_lem n i copyin s t lt run =
    let g = bget-Got root_dev n s i t run in
    let at : (t.bufs i).blockno ≡ n = g.blockno_is in
    let filled =
      set_buf i (record (t.bufs i) { bytes = copyin (t.bufs i).bytes; valid = true }) t in
    let u = disk_rw i true filled in
    let (bytes, valid, disk) = released_rest i u in
    (
      released i u,
      write_body n i copyin s t lt run,
      (rw disk (ground (arith, at))),
      (λ m ne. rw disk (ground (arith, at, g.platter))),
      bytes ∙ ground arith,
      valid ∙ ground arith,
    )

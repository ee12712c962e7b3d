-- ===== src/Bio/Raid.antt =====
-- RAID 1 in bio.c: what `bwrite` puts on the two halves of the disk under every combination of the
-- simulated failures, and what `bread` then returns.
use mp.Prelude.{
  ℕ, ◌<◌, ◌≡◌, Bool, true, false, not, ◌&&◌, none, ok, ◌==◌, if◌then◌else◌, arith, Bool-cases, ◌⊎◌,
  inl, inr, panic,
}
use mp.Param.{logical_disk_size}
use mp.Bio.{
  Block, Bcache, set_blockno, write_copy, bwrite, bread, holding_buf, mirror_of, disk_fails,
  use_fallback, find_cached,
}
use mp.Bio.Effects.{WasRead, bread-WasRead}

-- The block as a write through `bwrite` with the hooks of `s` leaves it at `n`.
abbrev pub written_at : Bcache → ℕ → Block → ℕ → Block
written_at s blockno bytes n =
    if n == blockno
    then (if use_fallback s blockno then s.platter n else bytes)
    else if n == mirror_of blockno
    then (if disk_fails s.force_disk_fail_id 1 then s.platter n else bytes)
    else s.platter n

module _ (i : ℕ) (s : Bcache) where
  abbrev after_write : Bcache
  after_write =
      let n = (s.bufs i).blockno in
      set_blockno i n (
        write_copy i (mirror_of n) (disk_fails s.force_disk_fail_id 1)
          (write_copy i n (use_fallback s n) s))

  bwrite_runs : holding_buf i s ≡ true → (s' : Bcache) × (bwrite i s ≡ ok s')
  unfolding bwrite
  bwrite_runs h = (after_write, ground arith)

  bwrite_panics : holding_buf i s ≡ false → bwrite i s ≡ panic
  unfolding bwrite
  bwrite_panics h = rw h

  module _ (s' : Bcache) (h : bwrite i s ≡ ok s') where
    platter-bwrite :
        (n : ℕ)
        → (s.bufs i).blockno < logical_disk_size
        → s'.platter n ≡ written_at s (s.bufs i).blockno (s.bufs i).bytes n
    unfolding bwrite write_copy
    platter-bwrite n small = ground arith

    bufs-bwrite : (j : ℕ) → s'.bufs j ≡ s.bufs j
    unfolding bwrite write_copy
    bufs-bwrite j = ground arith

    bwrite_rest :
        (s'.order ≡ s.order)
        × (s'.pid ≡ s.pid)
        × (s'.force_read_error_pbn ≡ s.force_read_error_pbn)
        × (s'.force_disk_fail_id ≡ s.force_disk_fail_id)
    unfolding bwrite write_copy
    bwrite_rest = ground arith

-- A `bwrite` that returns keeps everything but the disk.
pub record WasWritten (i : ℕ) (s : Bcache) (s' : Bcache) : Type 0 where
  pub disk :
      (n : ℕ)
      → (s.bufs i).blockno < logical_disk_size
      → s'.platter n ≡ written_at s (s.bufs i).blockno (s.bufs i).bytes n
  pub bufs : (j : ℕ) → s'.bufs j ≡ s.bufs j
  pub order : s'.order ≡ s.order
  pub pid_is : s'.pid ≡ s.pid
  pub read_hook : s'.force_read_error_pbn ≡ s.force_read_error_pbn
  pub disk_hook : s'.force_disk_fail_id ≡ s.force_disk_fail_id

pub bwrite-WasWritten : (i : ℕ) (s s' : Bcache) → bwrite i s ≡ ok s' → WasWritten i s s'
bwrite-WasWritten i s s' h =
    let r = bwrite_rest i s s' h in
    record {
      disk = platter-bwrite i s s' h;
      bufs = bufs-bwrite i s s' h;
      order = r.0;
      pid_is = r.1;
      read_hook = r.2;
      disk_hook = r.3;
    }

-- `bwrite` panics if the caller does not hold the buffer's lock. If it does, `bwrite` returns with
-- the buffer's bytes at the block unless disk 0 or that block of it fails, at the block's mirror
-- unless disk 1 fails, and every other block of the disk and every buffer as before.
pub bwrite_lem :
    (i : ℕ) (s : Bcache)
    → ((holding_buf i s ≡ false) × (bwrite i s ≡ panic))
      ⊎ ((s' : Bcache) × (bwrite i s ≡ ok s') × WasWritten i s s')
bwrite_lem i s = elim (Bool-cases (holding_buf i s)) [
  | inl held ↦ let (s', e) = bwrite_runs i s held in inr (s', e, bwrite-WasWritten i s s' e)
  | inr not_held ↦ inl (not_held, bwrite_panics i s not_held)
]

-- Both halves of the disk hold the same blocks.
abbrev pub IsMirrored : Bcache → Type 0
IsMirrored s = (n : ℕ) → n < logical_disk_size → s.platter n ≡ s.platter (mirror_of n)

abbrev pub no_failure : Bcache → ℕ → Bool
no_failure s blockno = not (use_fallback s blockno) && not (disk_fails s.force_disk_fail_id 1)

-- Without a failure a `bwrite` of a block of disk 0 keeps the two halves equal.
pub bwrite-IsMirrored :
    (i : ℕ) (s s' : Bcache)
    → (s.bufs i).blockno < logical_disk_size
    → no_failure s (s.bufs i).blockno ≡ true
    → bwrite i s ≡ ok s'
    → IsMirrored s
    → IsMirrored s'
bwrite-IsMirrored i s s' small fine h m n lt =
    let w : WasWritten i s s' = bwrite-WasWritten i s s' h in
    ground (arith, w.disk n small, w.disk (mirror_of n) small, m n lt)

-- What the next `bread` of the block returns once its buffer has been recycled: the bytes that
-- `bwrite` wrote, under the same failure, unless both copies were skipped.
pub read_back :
    (i : ℕ) (s s' t t' : Bcache) (dev j : ℕ)
    → (s.bufs i).blockno < logical_disk_size
    → (use_fallback s (s.bufs i).blockno && disk_fails s.force_disk_fail_id 1) ≡ false
    → bwrite i s ≡ ok s'
    → t.platter ≡ s'.platter
    → t.force_read_error_pbn ≡ s'.force_read_error_pbn
    → t.force_disk_fail_id ≡ s'.force_disk_fail_id
    → find_cached dev (s.bufs i).blockno t.bufs t.order ≡ none
    → bread dev (s.bufs i).blockno t ≡ ok (j, t')
    → (t'.bufs j).bytes ≡ (s.bufs i).bytes
read_back i s s' t t' dev j small safe h disk hook id miss r =
    let n = (s.bufs i).blockno in
    let w : WasWritten i s s' = bwrite-WasWritten i s s' h in
    let b : WasRead dev n t j t' = bread-WasRead dev n t j t' r in
    ground (arith, w.disk n small, w.disk (mirror_of n) small)

-- A failure of disk 0, or of one block of it, does not show: where the halves are equal, a `bread` of
-- a block that is not cached returns what disk 0 holds, whatever the hooks say.
pub bread_mirrored :
    (s s' : Bcache) (dev n j : ℕ)
    → n < logical_disk_size
    → IsMirrored s
    → find_cached dev n s.bufs s.order ≡ none
    → bread dev n s ≡ ok (j, s')
    → (s'.bufs j).bytes ≡ s.platter n
bread_mirrored s s' dev n j lt m miss r =
    let b : WasRead dev n s j s' = bread-WasRead dev n s j s' r in ground (arith, m n lt)

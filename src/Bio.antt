-- ===== src/Bio.antt =====
-- kernel/bio.c: the buffer cache, its LRU list, and the mirrored reads and writes (RAID 1) with the
-- two test hooks of kernel/proc.c that simulate failures.
pub mod Scan
pub mod Invariant
pub mod Effects
pub mod Raid
pub mod Race
pub mod Steps
mod Tests
use mp.Prelude.{
  ℕ, ◌+◌, ◌-◌, ◌%◌, ◌^◌, Bool, true, false, not, ◌&&◌, ◌||◌, Option, none, some, List, [], ◌∷◌,
  reverse, ◌==◌, if◌then◌else◌, Outcome, ok, panic, asleep, ◌>>=◌,
}
use mp.Prelude.Int.{ℤ, pos, eqb, to_int}
use mp.Prelude.Update.{update}
use mp.Param.{disk1_start_block}

-- The bytes of a block, by offset.
abbrev pub Block : Type 0
Block = ℕ → ℕ

-- `struct buf`. A buffer is named by its index in `bcache.buf`. `holder` is the sleep lock: the
-- pid of the process that has it. `disk`, `prev` and `next` are the driver's and the list's.
pub record Buf : Type 0 where
  pub valid : Bool
  pub dev : ℕ
  pub blockno : ℕ
  pub holder : Option ℕ
  pub refcnt : ℕ
  pub bytes : Block

-- `bcache`, the disk behind it, the test hooks, and the process that runs. `order` is the list from
-- `head.next` to `head.prev`, the most recently released buffer first.
pub record Bcache : Type 0 where
  pub order : List ℕ
  pub bufs : ℕ → Buf
  pub platter : ℕ → Block
  pub force_read_error_pbn : ℤ
  pub force_disk_fail_id : ℤ
  pub pid : ℕ

abbrev pub set_buf : ℕ → Buf → Bcache → Bcache
set_buf i b s = record s { bufs = update s.bufs i b }

-- What `virtio_disk_rw` does to the buffer and the disk: one transfer at `b->blockno`.
unfoldable pub disk_rw : ℕ → Bool → Bcache → Bcache
disk_rw i true s = record s { platter = update s.platter (s.bufs i).blockno (s.bufs i).bytes }
disk_rw i false s = set_buf i (record (s.bufs i) { bytes = s.platter (s.bufs i).blockno }) s

-- `acquiresleep(&b->lock)`
unfoldable pub lock_buf : ℕ → Bcache → Outcome (ℕ × Bcache)
lock_buf i s = elim (s.bufs i).holder [
  | none ↦ ok (i, set_buf i (record (s.bufs i) { holder = some s.pid }) s)
  | some _ ↦ asleep
]

-- `holdingsleep(&b->lock)`
unfoldable pub holding_buf : ℕ → Bcache → Bool
holding_buf i s = elim (s.bufs i).holder [ none ↦ false | some p ↦ p == s.pid ]

abbrev pub matches : ℕ → ℕ → Buf → Bool
matches dev blockno b = b.dev == dev && b.blockno == blockno

-- The scan of `bget` for a block that is cached, from `head.next` on.
unfoldable pub find_cached : ℕ → ℕ → (ℕ → Buf) → List ℕ → Option ℕ
find_cached dev blockno bufs [] = none
find_cached dev blockno bufs (i ∷ r) =
    if matches dev blockno (bufs i) then some i else find_cached dev blockno bufs r

-- The scan of `bget` for an unused buffer. The list given is the one along `prev`.
unfoldable pub find_free : (ℕ → Buf) → List ℕ → Option ℕ
find_free bufs [] = none
find_free bufs (i ∷ r) = if (bufs i).refcnt == 0 then some i else find_free bufs r

-- `refcnt` is a `uint`: both steps wrap.
abbrev pub refcnt_inc : ℕ → ℕ
refcnt_inc n = (n + 1) % 2 ^ 32

abbrev pub refcnt_dec : ℕ → ℕ
refcnt_dec n = (n + (2 ^ 32 - 1)) % 2 ^ 32

recycle : ℕ → ℕ → Option ℕ → Bcache → Outcome (ℕ × Bcache)
recycle dev blockno none s = panic
recycle dev blockno (some i) s =
    lock_buf i
      (set_buf i (record (s.bufs i) { dev = dev; blockno = blockno; valid = false; refcnt = 1 }) s)

reuse : ℕ → ℕ → Option ℕ → Bcache → Outcome (ℕ × Bcache)
unfolding recycle
reuse dev blockno none s = recycle dev blockno (find_free s.bufs (reverse s.order)) s
reuse dev blockno (some i) s =
    lock_buf i (set_buf i (record (s.bufs i) { refcnt = refcnt_inc (s.bufs i).refcnt }) s)

unfoldable pub bget : ℕ → ℕ → Bcache → Outcome (ℕ × Bcache)
unfolding reuse
bget dev blockno s = reuse dev blockno (find_cached dev blockno s.bufs s.order) s

-- `pbn0 + DISK1_START_BLOCK`, as it is stored into the `uint` `b->blockno`.
abbrev pub mirror_of : ℕ → ℕ
mirror_of blockno = (blockno + disk1_start_block) % 2 ^ 32

-- `force_read_error_pbn == pbn0`
unfoldable pub block_fails : ℤ → ℕ → Bool
block_fails hook blockno = eqb hook (to_int blockno)

-- `force_disk_fail_id == id`
unfoldable pub disk_fails : ℤ → ℕ → Bool
disk_fails hook id = eqb hook (pos id)

abbrev pub use_fallback : Bcache → ℕ → Bool
use_fallback s blockno =
    disk_fails s.force_disk_fail_id 0 || block_fails s.force_read_error_pbn blockno

-- The buffer with another block number: `b->blockno = n`.
abbrev pub set_blockno : ℕ → ℕ → Bcache → Bcache
set_blockno i n s = set_buf i (record (s.bufs i) { blockno = n }) s

-- The body of the `if` of `bread`: the transfer with `b->blockno` set to the copy that is read.
unfoldable pub fill : ℕ → ℕ → Bcache → Bcache
unfolding disk_rw
fill i pbn s =
    let original = (s.bufs i).blockno in
    let s' = disk_rw i false (set_blockno i pbn s) in
    set_blockno i original (set_buf i (record (s'.bufs i) { valid = true }) s')

unfoldable pub bread : ℕ → ℕ → Bcache → Outcome (ℕ × Bcache)
bread dev blockno s = do
  (i, s') ← bget dev blockno s
  let fallback = use_fallback s' blockno
  let s'' = fill i (if fallback then mirror_of blockno else blockno) s'
  ok (i, if not (s'.bufs i).valid || fallback then s'' else s')

-- The two halves of `bwrite`, each with `b->blockno` set to the copy that is written.
unfoldable pub write_copy : ℕ → ℕ → Bool → Bcache → Bcache
unfolding disk_rw
write_copy i pbn skip s = if skip then s else disk_rw i true (set_blockno i pbn s)

unfoldable pub bwrite : ℕ → Bcache → Outcome Bcache
bwrite i s =
    let pbn0 = (s.bufs i).blockno in
    let skip0 = use_fallback s pbn0 in
    let skip1 = disk_fails s.force_disk_fail_id 1 in
    if not (holding_buf i s)
    then panic
    else ok (set_blockno i pbn0 (write_copy i (mirror_of pbn0) skip1 (write_copy i pbn0 skip0 s)))

-- The list without a buffer.
unfoldable pub remove : ℕ → List ℕ → List ℕ
remove i [] = []
remove i (j ∷ r) = let rest = remove i r in if j == i then rest else j ∷ rest

abbrev pub move_to_front : ℕ → List ℕ → List ℕ
move_to_front i order = i ∷ remove i order

unfoldable pub brelse : ℕ → Bcache → Outcome Bcache
brelse i s =
    let n = refcnt_dec (s.bufs i).refcnt in
    let s' = set_buf i (record (s.bufs i) { holder = none; refcnt = n }) s in
    if not (holding_buf i s)
    then panic
    else ok (if n == 0 then record s' { order = move_to_front i s.order } else s')

unfoldable pub bpin : ℕ → Bcache → Bcache
bpin i s = set_buf i (record (s.bufs i) { refcnt = refcnt_inc (s.bufs i).refcnt }) s

unfoldable pub bunpin : ℕ → Bcache → Bcache
bunpin i s = set_buf i (record (s.bufs i) { refcnt = refcnt_dec (s.bufs i).refcnt }) s

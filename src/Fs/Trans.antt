-- ===== src/Fs/Trans.antt =====
-- kernel/fs.c and kernel/log.c: the blocks of a transaction. `log_write` of a block adds its number to
-- the log, or panics where the log has no room; `log_write` of Log is the same on the log itself.
use mp.Prelude.{
  ℕ, ◌-◌, ◌*◌, Bool, false, ◌||◌, List, [], ◌∷◌, ltb, leb, ◌==◌, if◌then◌else◌, length, Outcome, ok,
  panic, ◌>>=◌,
}
use mp.Fs.{Superblock, bblock}
use mp.Fs.Content.{ndirect, nindirect, File, bmap_direct, bmap_entry}
use mp.Words.{read_u32}

-- The numbers of the blocks in the log, in any order, and how many it can take: LOGSIZE, or
-- `log.size - 1` where that is less.
pub record Trans : Type 0 where
  pub limit : ℕ
  pub blocks : List ℕ

unfoldable pub in_log : ℕ → List ℕ → Bool
in_log b [] = false
in_log b (c ∷ l) = (c == b) || in_log b l

-- A block that is there already is absorbed.
abbrev pub with_block_number : ℕ → List ℕ → List ℕ
with_block_number b l = if in_log b l then l else b ∷ l

unfoldable pub log_block : ℕ → Trans → Outcome Trans
log_block b t =
    if leb t.limit (length t.blocks)
    then panic
    else ok (record t { blocks = with_block_number b t.blocks })

-- The two of a `balloc`: the block of the map, and the block itself in `bzero`.
unfoldable pub log_balloc : Superblock → ℕ → Trans → Outcome Trans
log_balloc sb a t = do t' ← log_block (bblock a sb) t; log_block a t'

-- `bmap` with its `log_write`s.
unfoldable pub bmap_direct_logged : Superblock → ℕ → File → Trans → Outcome (ℕ × File × Trans)
bmap_direct_logged sb bn f t = do
  (a, f') ← bmap_direct sb bn f
  t' ← if f.ip.addrs bn == 0 then log_balloc sb a t else ok t
  ok (a, f', t')

unfoldable pub bmap_entry_logged : Superblock → ℕ → ℕ → File → Trans → Outcome (ℕ × File × Trans)
bmap_entry_logged sb addr bn f t = do
  (a, f') ← bmap_entry sb addr bn f
  t' ←
      if read_u32 (f.disk addr) (4 * bn) == 0
      then (do t1 ← log_balloc sb a t; log_block addr t1)
      else ok t
  ok (a, f', t')

unfoldable pub bmap_logged : Superblock → ℕ → File → Trans → Outcome (ℕ × File × Trans)
bmap_logged sb bn f t =
    if ltb bn ndirect
    then bmap_direct_logged sb bn f t
    else if ltb (bn - ndirect) nindirect
    then (do
      (addr, f', t') ← bmap_direct_logged sb ndirect f t
      bmap_entry_logged sb addr (bn - ndirect) f' t')
    else panic

-- ===== src/Log/HeadBlock.antt =====
-- kernel/log.c: what `write_head` leaves on the disk, `read_head` of a later boot reads back.
use mp.Prelude.{ℕ, ◌^◌, ◌<◌, ◌≡◌, refl, sym, ap, ◌∙◌, subst, arith, ==_refl, ok}
use mp.Param.{logical_disk_size}
use mp.Words.{read_u32}
use mp.Bio.{Block}
use mp.Log.{Log, encode_head, write_head, rounds, get_entries, read_head}
use mp.Log.Head.{head_roundtrip}
use mp.Log.Good.{IsGood}
use mp.Log.Stages.{log_area, area-IsSmall, write_head-disk}
use mp.Log.InstallRuns.{IsIdle}
use mp.Log.RecoverRuns.{read_head_returns, write_head_returns}

-- A log with the header block of a disk, in a cache that nobody uses.
pub record ReadsFrom (start : ℕ) (header : Block) (l : Log) : Type 0 where
  pub start_is : l.start ≡ start
  pub header_is : l.cache.platter start ≡ header
  pub good : IsGood l.dev (log_area start 0) l.cache
  pub idle : IsIdle (log_area start 0) 1 l.cache

read_entries :
    (l l0 : Log) (old : Block)
    → l.n < 2 ^ 31
    → ((k : ℕ) → k < l.n → l.block k < 2 ^ 32)
    → l.start < logical_disk_size
    → ReadsFrom l.start (encode_head l.n l.block old) l0
    → (l2 : Log) × (read_head l0 ≡ ok l2)
      × (l2.n ≡ l.n)
      × ((k : ℕ) → k < l.n → l2.block k ≡ l.block k)
read_entries l l0 old small words lt r =
    let es = r.start_is in
    let at : l0.cache.platter l0.start ≡ encode_head l.n l.block old =
      ap l0.cache.platter es ∙ r.header_is in
    let (s, e, _, _, _) =
      read_head_returns 0 0 l0 (subst (λ x. x < logical_disk_size) (sym es) lt)
        (subst (λ x. IsGood l0.dev (log_area x 0) l0.cache) (sym es) r.good)
        (subst (λ x. IsIdle (log_area x 0) 1 l0.cache) (sym es) r.idle) in
    let (count, entries) = head_roundtrip l.n l.block l0.block old small words in
    let b = l0.cache.platter l0.start in
    let m = rounds (read_u32 b 0) in
    let l2 : Log = record l0 { n = m; block = get_entries b 0 m l0.block; cache = s } in
    (
      l2,
      e,
      ap (λ x. rounds (read_u32 x 0)) at ∙ count,
      λ k hk. ap (λ x. get_entries x 0 (rounds (read_u32 x 0)) l0.block k) at ∙ entries k hk,
    )

-- `write_head` of a log in a cache that nobody uses returns, and a later boot whose log starts at the
-- same block, on a disk with that block, reads back the count and every entry below it. No failure is
-- simulated, and the entries are block numbers that fit in 32 bits.
pub read_head-write_head :
    (l : Log)
    → l.start < logical_disk_size
    → l.n < 2 ^ 31
    → ((k : ℕ) → k < l.n → l.block k < 2 ^ 32)
    → IsGood l.dev (log_area l.start 0) l.cache
    → IsIdle (log_area l.start 0) 1 l.cache
    → (l1 : Log) × (write_head l ≡ ok l1)
      × ((l0 : Log)
          → ReadsFrom l.start (l1.cache.platter l.start) l0
          → (l2 : Log) × (read_head l0 ≡ ok l2)
            × (l2.n ≡ l.n)
            × ((k : ℕ) → k < l.n → l2.block k ≡ l.block k))
read_head-write_head l lt small words g h =
    let (l1, e) = write_head_returns 0 0 l h in
    let (old, rd, _) =
      write_head-disk (log_area l.start 0) l l1 e (area-IsSmall l.start 0 (omega arith)) lt g in
    let at : l1.cache.platter l.start ≡ encode_head l.n l.block old =
      rd.disk l.start lt ∙ rw (==_refl l.start) refl in
    (l1, e, λ l0 r. read_entries l l0 old small words lt (subst (λ b. ReadsFrom l.start b l0) at r))

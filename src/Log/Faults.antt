-- ===== src/Log/Faults.antt =====
-- Where the log and the buffer cache part: a log written while disk 0 fails, and the buffers that a
-- recovery leaves behind.
use mp.Prelude.{
  ℕ, ◌-◌, ◌<◌, ◌^◌, ◌≡◌, ◌∙◌, ◌≢◌, true, false, ok, some, none, arith, inl, inr, ◌==◌, refl, List,
}
use mp.Prelude.Int.{ℤ, pos, negsuc}
use mp.Param.{logical_disk_size}
use mp.Bio.{Bcache, bunpin, mirror_of, disk_fails, find_cached, find_free}
use mp.Bio.Scan.{has, find_free-some, find_cached-none, find_cached-some}
use mp.Log.{copy_data, write_log_block, install_block}
use mp.Log.Blocks.{
  WroteBlock, write_log_block-WroteBlock, InstalledBlock, install_block-InstalledBlock,
}

-- The test hook names one failing disk.
one_disk_fails : (hook : ℤ) → disk_fails hook 0 ≡ true → disk_fails hook 1 ≡ false
unfolding disk_fails
one_disk_fails (pos n) h = ground arith
one_disk_fails (negsuc n) h = cc

module _ {dev to_block from_block : ℕ} {s s' : Bcache}
    (w : WroteBlock dev to_block from_block s s') where
  -- The buffer that `bget` locked first is not the one that it locks next.
  buffers_differ : (w.to == w.from) ≡ false
  buffers_differ = ground (arith, w.read_from.got.free, w.read_to.holder_is)

  to_blockno : ((copy_data w.to w.from w.s2).bufs w.to).blockno ≡ to_block
  unfolding copy_data
  to_blockno = ground (arith, w.read_from.others w.to, buffers_differ, w.read_to.blockno_is)

  to_bytes : ((copy_data w.to w.from w.s2).bufs w.to).bytes ≡ (w.s2.bufs w.from).bytes
  unfolding copy_data
  to_bytes = ground arith

  copy_rest :
      ((copy_data w.to w.from w.s2).platter ≡ w.s2.platter)
      × ((copy_data w.to w.from w.s2).force_disk_fail_id ≡ w.s2.force_disk_fail_id)
      × ((copy_data w.to w.from w.s2).force_read_error_pbn ≡ w.s2.force_read_error_pbn)
  unfolding copy_data
  copy_rest = (refl, refl, refl)

  final_platter : s'.platter ≡ w.s3.platter
  final_platter = w.release_to.platter ∙ w.release_from.platter

  from_bytes :
      disk_fails s.force_disk_fail_id 0 ≡ true
      → (w.s2.bufs w.from).bytes ≡ s.platter (mirror_of from_block)
  from_bytes fails = ground (arith, w.read_from.bytes_is, w.read_to.disk_hook, w.read_to.platter)

  log_bytes :
      disk_fails s.force_disk_fail_id 0 ≡ true
      → to_block < logical_disk_size
      → s'.platter (mirror_of to_block) ≡ s.platter (mirror_of from_block)
  log_bytes fails small = ground (
    arith,
    w.written.disk (mirror_of to_block),
    to_blockno,
    to_bytes,
    copy_rest,
    final_platter,
    from_bytes fails,
    w.read_to.disk_hook,
    w.read_from.disk_hook,
    one_disk_fails s.force_disk_fail_id fails,
  )

-- While disk 0 fails, `write_log` does not log what the cache holds: whatever a system call has
-- changed in the buffer of a block, the round of the block copies the contents that the mirror had
-- before into the log.
pub write_log_stale :
    (dev to_block from_block : ℕ) (s s' : Bcache)
    → disk_fails s.force_disk_fail_id 0 ≡ true
    → to_block < logical_disk_size
    → write_log_block dev to_block from_block s ≡ ok s'
    → s'.platter (mirror_of to_block) ≡ s.platter (mirror_of from_block)
write_log_stale dev to_block from_block s s' fails small h =
    log_bytes (write_log_block-WroteBlock dev to_block from_block s s' h) fails small

module _ {dev log_block home : ℕ} {s s' : Bcache} (w : InstalledBlock dev log_block home s s')
    (differ : log_block ≢ home) (new : find_cached dev home s.bufs s.order ≡ none) where
  install_differ : (w.lbuf == w.dbuf) ≡ false
  install_differ = ground (arith, w.read_home.got.free, w.read_log.holder_is)

  home_listed : has s.order w.dbuf ≡ true
  home_listed = ground (arith, w.read_home.got.listed, w.read_log.order)

  -- The home block has no buffer at its `bread` either.
  home_new : find_cached dev home w.s1.bufs w.s1.order ≡ some w.dbuf → ⊥
  home_new hit = ground (
    arith,
    find_cached-some dev home w.s1.bufs w.s1.order w.dbuf hit,
    find_cached-none dev home s.bufs s.order w.dbuf new home_listed,
    w.read_log.others w.dbuf install_differ,
  )

  home_refcnt : (w.s2.bufs w.dbuf).refcnt ≡ 1
  home_refcnt = elim w.read_home.got.found [
    | inl hit ↦ absurd (home_new hit.0)
    | inr miss ↦ ground (arith, w.read_home.refcnt_is)
  ]

  unpinned : ((bunpin w.dbuf w.s3).bufs w.dbuf).refcnt ≡ 0
  unfolding bunpin copy_data
  unpinned = ground (arith, w.written.bufs w.dbuf, home_refcnt)

  unpinned_blockno : ((bunpin w.dbuf w.s3).bufs w.dbuf).blockno ≡ home
  unfolding bunpin copy_data
  unpinned_blockno = ground (arith, w.written.bufs w.dbuf, w.read_home.blockno_is)

  unpinned_order : (bunpin w.dbuf w.s3).order ≡ s.order
  unfolding bunpin copy_data
  unpinned_order = ground (arith, w.written.order, w.read_home.order, w.read_log.order)

  leaked_refcnt : (s'.bufs w.dbuf).refcnt ≡ 2 ^ 32 - 1
  leaked_refcnt =
      ground (arith, w.release_home.self, w.release_log.others w.dbuf install_differ, unpinned)

  leaked_blockno : (s'.bufs w.dbuf).blockno ≡ home
  leaked_blockno =
      ground
        (arith, w.release_home.self, w.release_log.others w.dbuf install_differ, unpinned_blockno)

  leaked_listed : has s'.order w.dbuf ≡ true
  leaked_listed = ground (
    arith,
    home_listed,
    unpinned_order,
    w.read_log.got.listed,
    w.release_log.listed w.dbuf,
    w.release_home.listed w.dbuf,
  )

-- `install_trans` unpins a home block that a recovery never pinned: if the block had no buffer, its
-- round leaves it one whose count has wrapped to 2^32 - 1 though nobody uses it, and in that state no
-- scan of `bget` takes the buffer for another block.
pub recovery_leaks :
    (dev log_block home : ℕ) (s s' : Bcache)
    → log_block ≢ home
    → find_cached dev home s.bufs s.order ≡ none
    → install_block dev log_block home s ≡ ok s'
    → (j : ℕ) × (has s'.order j ≡ true)
      × ((s'.bufs j).blockno ≡ home)
      × ((s'.bufs j).refcnt ≡ 2 ^ 32 - 1)
      × ((l : List ℕ) → find_free s'.bufs l ≢ some j)
recovery_leaks dev log_block home s s' differ new h =
    let w = install_block-InstalledBlock dev log_block home s s' h in
    let count = leaked_refcnt w differ new in
    (
      w.dbuf,
      leaked_listed w differ new,
      leaked_blockno w differ new,
      count,
      λ l free. ground (arith, find_free-some s'.bufs l w.dbuf free),
    )

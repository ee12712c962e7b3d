-- ===== src/Log/Blocks.antt =====
-- The rounds of `write_log` and `install_trans`, taken apart into their calls.
use mp.Prelude.{ℕ, List, ◌≡◌, true, false, ok, none, >>=-eq-ok, arith, ◌==◌}
use mp.Bio.{Bcache, bread, bwrite, brelse, bunpin, refcnt_dec, move_to_front}
use mp.Bio.Scan.{has, has-remove_ne}
use mp.Bio.Effects.{WasRead, bread-WasRead}
use mp.Bio.Raid.{WasWritten, bwrite-WasWritten}
use mp.Log.{copy_data, write_log_block, install_block}

-- `brelse` changes the lock and the count of its buffer, and the order.
pub record WasReleased (i : ℕ) (s s' : Bcache) : Type 0 where
  pub platter : s'.platter ≡ s.platter
  pub pid_is : s'.pid ≡ s.pid
  pub read_hook : s'.force_read_error_pbn ≡ s.force_read_error_pbn
  pub disk_hook : s'.force_disk_fail_id ≡ s.force_disk_fail_id
  pub self : s'.bufs i ≡ record (s.bufs i) { holder = none; refcnt = refcnt_dec (s.bufs i).refcnt }
  pub others : (j : ℕ) → (i == j) ≡ false → s'.bufs j ≡ s.bufs j
  pub listed : (j : ℕ) → has s.order i ≡ true → has s'.order j ≡ has s.order j

has-move_to_front : (i j : ℕ) (l : List ℕ) → has l i ≡ true → has (move_to_front i l) j ≡ has l j
unfolding has
has-move_to_front i j l m = ground (arith, has-remove_ne i j l)

pub brelse-WasReleased : (i : ℕ) (s s' : Bcache) → brelse i s ≡ ok s' → WasReleased i s s'
unfolding brelse
brelse-WasReleased i s s' h = record {
  platter = ground arith;
  pid_is = ground arith;
  read_hook = ground arith;
  disk_hook = ground arith;
  self = ground arith;
  others = λ j ne. ground arith;
  listed = λ j m. ground (arith, has-move_to_front i j s.order m);
}

-- The calls that a round of `write_log` makes.
pub record WroteBlock (dev to_block from_block : ℕ) (s s' : Bcache) : Type 0 where
  pub to : ℕ
  pub from : ℕ
  pub s1 : Bcache
  pub s2 : Bcache
  pub s3 : Bcache
  pub s4 : Bcache
  pub read_to : WasRead dev to_block s to s1
  pub read_from : WasRead dev from_block s1 from s2
  pub written : WasWritten to (copy_data to from s2) s3
  pub release_from : WasReleased from s3 s4
  pub release_to : WasReleased to s4 s'

pub write_log_block-WroteBlock :
    (dev to_block from_block : ℕ) (s s' : Bcache)
    → write_log_block dev to_block from_block s ≡ ok s'
    → WroteBlock dev to_block from_block s s'
unfolding write_log_block
write_log_block-WroteBlock dev to_block from_block s s' h =
    let ((to, s1), e1, h1) = >>=-eq-ok (bread dev to_block s) _ h in
    let ((from, s2), e2, h2) = >>=-eq-ok (bread dev from_block s1) _ h1 in
    let (s3, e3, h3) = >>=-eq-ok (bwrite to (copy_data to from s2)) _ h2 in
    let (s4, e4, h4) = >>=-eq-ok (brelse from s3) _ h3 in
    record {
      to = to;
      from = from;
      s1 = s1;
      s2 = s2;
      s3 = s3;
      s4 = s4;
      read_to = bread-WasRead dev to_block s to s1 e1;
      read_from = bread-WasRead dev from_block s1 from s2 e2;
      written = bwrite-WasWritten to (copy_data to from s2) s3 e3;
      release_from = brelse-WasReleased from s3 s4 e4;
      release_to = brelse-WasReleased to s4 s' h4;
    }

-- The calls that a round of `install_trans` makes.
pub record InstalledBlock (dev log_block home_block : ℕ) (s s' : Bcache) : Type 0 where
  pub lbuf : ℕ
  pub dbuf : ℕ
  pub s1 : Bcache
  pub s2 : Bcache
  pub s3 : Bcache
  pub s4 : Bcache
  pub read_log : WasRead dev log_block s lbuf s1
  pub read_home : WasRead dev home_block s1 dbuf s2
  pub written : WasWritten dbuf (copy_data dbuf lbuf s2) s3
  pub release_log : WasReleased lbuf (bunpin dbuf s3) s4
  pub release_home : WasReleased dbuf s4 s'

pub install_block-InstalledBlock :
    (dev log_block home_block : ℕ) (s s' : Bcache)
    → install_block dev log_block home_block s ≡ ok s'
    → InstalledBlock dev log_block home_block s s'
unfolding install_block
install_block-InstalledBlock dev log_block home_block s s' h =
    let ((lbuf, s1), e1, h1) = >>=-eq-ok (bread dev log_block s) _ h in
    let ((dbuf, s2), e2, h2) = >>=-eq-ok (bread dev home_block s1) _ h1 in
    let (s3, e3, h3) = >>=-eq-ok (bwrite dbuf (copy_data dbuf lbuf s2)) _ h2 in
    let (s4, e4, h4) = >>=-eq-ok (brelse lbuf (bunpin dbuf s3)) _ h3 in
    record {
      lbuf = lbuf;
      dbuf = dbuf;
      s1 = s1;
      s2 = s2;
      s3 = s3;
      s4 = s4;
      read_log = bread-WasRead dev log_block s lbuf s1 e1;
      read_home = bread-WasRead dev home_block s1 dbuf s2 e2;
      written = bwrite-WasWritten dbuf (copy_data dbuf lbuf s2) s3 e3;
      release_log = brelse-WasReleased lbuf (bunpin dbuf s3) s4 e4;
      release_home = brelse-WasReleased dbuf s4 s' h4;
    }

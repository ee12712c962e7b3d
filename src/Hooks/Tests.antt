-- ===== src/Hooks/Tests.antt =====
-- The test interface at concrete inputs: tests of the model, and the theorems applied.
use mp.Prelude.{◌≡◌, refl, true, none, some, [], ◌∷◌, ok, arith}
use mp.Prelude.Int.{pos, minus_one}
use mp.Param.{root_dev}
use mp.Bio.{Bcache, bget, find_cached, lock_buf, set_buf}
use mp.Hooks.{sys_raw_read}
use mp.Hooks.Raw.{raw_read_lem}

-- Buffer 0 holds a changed copy of block 5, that the log has pinned; the disk holds zeros.
abbrev pinned : Bcache
pinned = record {
  order = 0 ∷ [];
  bufs = λ i. record {
    valid = true;
    dev = root_dev;
    blockno = 5;
    holder = none;
    refcnt = 1;
    bytes = λ o. 9;
  };
  platter = λ n o. 0;
  force_read_error_pbn = minus_one;
  force_disk_fail_id = minus_one;
  pid = 3;
}

abbrev locked : Bcache
locked =
    set_buf 0
      (record {
        valid = true;
        dev = root_dev;
        blockno = 5;
        holder = some 3;
        refcnt = 2;
        bytes = λ o. 9;
      })
      (set_buf 0 (record (pinned.bufs 0) { refcnt = 2 }) pinned)

finds : bget root_dev 5 pinned ≡ ok (0, locked)
unfolding bget find_cached lock_buf
finds = refl

raw_read_lem_example :
    (s' : Bcache) × (sys_raw_read (pos 5) true pinned ≡ ok (pos 0, some (λ o. 0), s'))
    × ((s'.bufs 0).bytes ≡ λ o. 0)
    × ((s'.bufs 0).valid ≡ true)
    × (s'.platter ≡ pinned.platter)
raw_read_lem_example = raw_read_lem 5 0 pinned locked (omega arith) finds

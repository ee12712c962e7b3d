-- ===== src/Log/CrashTests.antt =====
-- A crash in a commit of kernel/log.c at concrete inputs: the theorem applied.
use mp.Prelude.{
  ℕ, ◌+◌, ltb, if◌then◌else◌, lt→ltb, ◌<◌, ◌≡◌, refl, sym, ◌∙◌, true, false, none, [], ◌∷◌, arith,
  ok, ◌>>=◌,
}
use mp.Prelude.Int.{pos, minus_one}
use mp.Prelude.Update.{update}
use mp.Param.{logical_disk_size, disk1_start_block}
use mp.Words.{read_u32}
use mp.Bio.{
  Block, Buf, Bcache, lock_buf, holding_buf, find_cached, find_free, bget, block_fails, disk_fails,
  fill, bread, write_copy, bwrite, brelse,
}
use mp.Bio.Scan.{has}
use mp.Log.{Log, copy_data, write_log_block, write_log_from, write_log, recover_from_log}
use mp.Log.Stages.{log_area}
use mp.Log.Crash.{Boots, crash_atomic}
use mp.Log.CrashStates.{logging, IsReady, IsOld}

abbrev unused : Buf
unused = record { valid = false; dev = 0; blockno = 0; holder = none; refcnt = 0; bytes = λ _. 0 }

-- Four buffers; the first one has block 40 with new contents, which the log has pinned.
abbrev new_contents : Block
new_contents o = 7

abbrev pinned_cache : Bcache
pinned_cache = record {
  order = 0 ∷ 1 ∷ 2 ∷ 3 ∷ [];
  bufs =
      update (λ _. unused) 0
        (record unused { valid = true; dev = 1; blockno = 40; refcnt = 1; bytes = new_contents });
  platter = λ _ _. 0;
  force_read_error_pbn = minus_one;
  force_disk_fail_id = minus_one;
  pid = 1;
}

abbrev ready_log : Log
ready_log = record {
  start = 2;
  size = 30;
  outstanding = pos 0;
  committing = true;
  dev = 1;
  n = 1;
  block = λ _. 40;
  cache = pinned_cache;
}

-- Block 40 is in the log, and the header is not written.
abbrev stopped : Log
stopped = elim (write_log ready_log) [ ok l ↦ l | _ ↦ ready_log ]

-- The machine stops between the two transfers of the block: the mirror does not have it yet.
abbrev half : ℕ → Block
half b = if ltb b logical_disk_size then stopped.cache.platter b else λ _. 0

abbrev booted : Log
booted = record ready_log {
  n = 0;
  cache = record stopped.cache { platter = half; bufs = λ _. unused; order = 0 ∷ 1 ∷ 2 ∷ 3 ∷ [] };
}

stops : write_log ready_log ≡ ok stopped
unfolding write_log write_log_from write_log_block bread bget lock_buf find_cached find_free
    block_fails disk_fails fill bwrite holding_buf write_copy copy_data brelse ◌>>=◌
stops = refl

-- The block is in the log, and neither in its mirror nor at home.
logged_there :
    (half 3 5 ≡ 7)
    × (half (3 + disk1_start_block) 5 ≡ 0)
    × (stopped.cache.platter (3 + disk1_start_block) 5 ≡ 7)
    × (half 40 5 ≡ 0)
    × (stopped.cache.force_read_error_pbn ≡ minus_one)
    × (stopped.cache.force_disk_fail_id ≡ minus_one)
unfolding write_log write_log_from write_log_block bread bget lock_buf find_cached find_free
    block_fails disk_fails fill bwrite holding_buf write_copy copy_data brelse ◌>>=◌
logged_there = (refl, refl, refl, refl, refl, refl)

has_first : (i : ℕ) → has (0 ∷ 1 ∷ 2 ∷ 3 ∷ []) i ≡ true → i < 4
unfolding has
has_first i h = ground arith

ready : IsReady ready_log (λ _. new_contents)
unfolding has read_u32
ready = record {
  homes = record {
    fits = omega arith;
    home_small = λ j hj. omega arith;
    home_outside = λ j hj. refl;
    home_once = λ j k hj hk _. omega arith;
  };
  good = record {
    no_block_fails = refl;
    no_disk_fails = refl;
    unique = λ i j mi mj di dj e. only_pinned i di ∙ sym (only_pinned j dj);
    one_dev = λ i m v. valid_pinned i v;
    coherent = λ i m v a. absurd (outside_log i v a);
  };
  pins = λ j lo hi. (
    0,
    1,
    record {
      listed = refl;
      dev_is = refl;
      blockno_is = refl;
      valid_is = refl;
      bytes_is = refl;
      refcnt_is = refl;
    },
    omega arith,
    omega arith,
  );
  some_blocks = omega arith;
  clear = refl;
}
  where
    only_pinned : (i : ℕ) → (pinned_cache.bufs i).dev ≡ 1 → i ≡ 0
    only_pinned i d = ground arith

    valid_pinned : (i : ℕ) → (pinned_cache.bufs i).valid ≡ true → (pinned_cache.bufs i).dev ≡ 1
    valid_pinned i v = ground arith

    outside_log :
        (i : ℕ)
        → (pinned_cache.bufs i).valid ≡ true
        → log_area 2 1 (pinned_cache.bufs i).blockno ≡ true
        → ⊥
    outside_log i v a = ground arith

boots : Boots ready_log half booted
unfolding has
boots = record {
  start_is = refl;
  disk_is = refl;
  good = record {
    no_block_fails = logged_there.4;
    no_disk_fails = logged_there.5;
    unique = λ i j mi mj di dj e. absurd (omega arith);
    one_dev = λ i m v. cc;
    coherent = λ i m v a. cc;
  };
  idle = record {
    unlocked = λ i. refl;
    room = λ i m a. omega arith;
    spare = record {
      spares = 0 ∷ 1 ∷ [];
      distinct = ((omega arith, tt), (tt, tt));
      unused = ((refl, refl), ((refl, refl), tt));
      enough = omega arith;
    };
  };
}

crash_atomic_example :
    (l' : Log) × (recover_from_log booted ≡ ok l') × IsOld ready_log l'.cache.platter
crash_atomic_example =
    crash_atomic ready_log booted (λ _. new_contents) half ready
      (logging 1 stopped (omega arith) stops (λ x lt. rw (lt→ltb x logical_disk_size lt) refl))
      boots

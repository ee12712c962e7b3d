-- ===== src/Log/HeadTests.antt =====
-- The header block of kernel/log.c at a concrete input: the theorem applied.
use mp.Prelude.{ℕ, ◌<◌, ◌≡◌, refl, true, false, none, [], ◌∷◌, arith, ok}
use mp.Prelude.Int.{pos, minus_one}
use mp.Bio.Scan.{has}
use mp.Log.{Log, write_head, read_head}
use mp.Log.Good.{IsGood}
use mp.Log.Stages.{log_area}
use mp.Log.InstallRuns.{IsIdle}
use mp.Log.HeadBlock.{ReadsFrom, read_head-write_head}

-- A log of one block, with two buffers that nobody uses.
abbrev one_entry : Log
one_entry = record {
  start = 2;
  size = 30;
  outstanding = pos 0;
  committing = true;
  dev = 1;
  n = 1;
  block = λ _. 40;
  cache = record {
    order = 0 ∷ 1 ∷ [];
    bufs = λ _. record {
      valid = false;
      dev = 0;
      blockno = 0;
      holder = none;
      refcnt = 0;
      bytes = λ _. 0;
    };
    platter = λ _ _. 0;
    force_read_error_pbn = minus_one;
    force_disk_fail_id = minus_one;
    pid = 1;
  };
}

entry-IsGood : IsGood 1 (log_area 2 0) one_entry.cache
entry-IsGood = record {
  no_block_fails = refl;
  no_disk_fails = refl;
  unique = λ i j mi mj di dj e. absurd (omega (arith, di));
  one_dev = λ i m v. cc;
  coherent = λ i m v a. cc;
}

entry-IsIdle : IsIdle (log_area 2 0) 1 one_entry.cache
unfolding has
entry-IsIdle = record {
  unlocked = λ i. refl;
  room = λ i m a. omega arith;
  spare = record {
    spares = 0 ∷ [];
    distinct = (tt, tt);
    unused = ((refl, refl), tt);
    enough = omega arith;
  };
}

read_head-write_head_example :
    (l1 : Log) × (write_head one_entry ≡ ok l1)
    × ((l0 : Log)
        → ReadsFrom 2 (l1.cache.platter 2) l0
        → (l2 : Log) × (read_head l0 ≡ ok l2) × (l2.n ≡ 1) × ((k : ℕ) → k < 1 → l2.block k ≡ 40))
read_head-write_head_example =
    read_head-write_head one_entry (omega arith) (omega arith) (λ k h. omega arith) entry-IsGood
      entry-IsIdle

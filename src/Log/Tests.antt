-- ===== src/Log/Tests.antt =====
-- kernel/log.c at concrete inputs: tests of the model, and the theorems applied.
use mp.Prelude.{
  suc, panic, ◌++◌, ℕ, ◌+◌, ◌-◌, ◌^◌, ◌<◌, ◌≤◌, ◌≡◌, ◌≢◌, refl, ◌==◌, if◌then◌else◌, true, false,
  none, some, ok, Outcome, ◌>>=◌, List, [], ◌∷◌, arith,
}
use mp.Prelude.Int.{pos, minus_one}
use mp.Param.{log_size}
use mp.Words.{read_u32, write_u32}
use mp.Bio.{
  Buf, Bcache, disk_rw, lock_buf, find_cached, find_free, bget, fill, bread, write_copy, bwrite,
  brelse, bpin, bunpin, holding_buf, block_fails, disk_fails, remove,
}
use mp.Bio.Scan.{has}
use mp.Log.{
  Log, begin_op, log_write, find_block, copy_data, write_log_block, write_log_from, install_from,
  write_log, install_block, install_trans, put_entries, encode_head, get_entries, write_head,
  read_head, recover_from_log, initlog, commit, end_op_enter, end_op_finish, end_op,
}
use mp.Log.Reserve.{Step, Reach, IsReserved, total, log_write_reserved}
use mp.Log.Faults.{write_log_stale, recovery_leaks}

-- What a test opens to run the code.
program : Unit {0}
unfolding disk_rw lock_buf find_cached find_free bget fill bread write_copy bwrite brelse bpin
    bunpin holding_buf block_fails disk_fails remove has ◌>>=◌ begin_op log_write find_block
    copy_data write_log_block write_log_from write_log install_block install_from install_trans
    put_entries encode_head get_entries write_head read_head recover_from_log initlog commit
    end_op_enter end_op_finish end_op read_u32 write_u32 total
program = tt

abbrev result {ℓ} : {A : Type ℓ} → Outcome A → A → A
result (ok s) d = s
result _ d = d

abbrev blank : Buf
blank = record { valid = false; dev = 0; blockno = 0; holder = none; refcnt = 0; bytes = λ _. 0 }

abbrev fresh : Bcache
fresh = record {
  order = 4 ∷ 3 ∷ 2 ∷ 1 ∷ 0 ∷ [];
  bufs = λ _. blank;
  platter = λ n _. 0;
  force_read_error_pbn = minus_one;
  force_disk_fail_id = minus_one;
  pid = 7;
}

-- The log of mkfs: its header at block 2. Here with one more block than mkfs gives it.
abbrev idle_log : Log
idle_log = record {
  start = 2;
  size = 30;
  outstanding = pos 0;
  committing = false;
  dev = 1;
  n = 0;
  block = λ _. 0;
  cache = fresh;
}

abbrev in_op : Log
in_op = result (begin_op idle_log) idle_log

-- `bread` of block 100, a change of its bytes, `log_write`, `brelse`, `end_op`.
abbrev edit : Log → ℕ → ℕ → Outcome Log
edit l n v = do
  (i, s) ← bread l.dev n l.cache
  l' ← log_write i (record l {
    cache = record s {
      bufs = λ j. if j == i then record (s.bufs i) { bytes = λ _. v } else s.bufs j;
    };
  })
  s' ← brelse i l'.cache
  ok (record l' { cache = s' })

abbrev after_two : Outcome Log
after_two = do
  l ← begin_op idle_log
  l1 ← edit l 100 5
  l2 ← edit l1 101 6
  l3 ← edit l2 100 8
  end_op l3

-- The commit puts both blocks home, on both halves of the disk, and clears the header.
commits :
    ((result after_two idle_log).cache.platter 100 0 ≡ 8)
    × ((result after_two idle_log).cache.platter 2148 0 ≡ 8)
    × ((result after_two idle_log).cache.platter 101 0 ≡ 6)
    × (read_u32 ((result after_two idle_log).cache.platter 2) 0 ≡ 0)
    × ((result after_two idle_log).n ≡ 0)
unfolding program
commits = (refl, refl, refl, refl, refl)

-- The same under a failed disk 0: the mirror keeps what it had.
abbrev failing_log : Log
failing_log = record idle_log { cache = record fresh { force_disk_fail_id = pos 0 } }

abbrev after_failing : Outcome Log
after_failing = do l ← begin_op failing_log; l1 ← edit l 100 5; end_op l1

update_lost :
    ((result after_failing idle_log).n ≡ 0)
    × ((result after_failing idle_log).cache.platter 2148 0 ≡ 0)
    × ((result after_failing idle_log).cache.platter 100 0 ≡ 0)
unfolding program
update_lost = (refl, refl, refl)

idle-IsReserved : IsReserved idle_log []
unfolding total
idle-IsReserved = record { fits = omega arith; counted = refl; small = tt }

log_write_reserved_example :
    (in_op.n + total (10 ∷ []) ≤ log_size)
    × ((xs ys : List ℕ) (r b : ℕ)
        → (10 ∷ []) ≡ xs ++ (suc r ∷ ys)
        → (in_op.n < in_op.size - 1 → (l' : Log) × (log_write b in_op ≡ ok l'))
          × (in_op.size - 1 ≤ in_op.n → log_write b in_op ≡ panic))
unfolding program
log_write_reserved_example =
    log_write_reserved (10 ∷ []) idle-IsReserved
      (Reach.later Reach.start (Step.begin idle_log in_op [] refl))

abbrev stale_log : Bcache
stale_log = result (write_log_block 1 3 100 (record fresh { force_disk_fail_id = pos 0 })) fresh

write_log_stale_example : stale_log.platter 2051 ≡ fresh.platter 2148
unfolding program
write_log_stale_example =
    write_log_stale 1 3 100 (record fresh { force_disk_fail_id = pos 0 }) stale_log refl
      (omega arith) refl

abbrev installed : Bcache
installed = result (install_block 1 3 100 fresh) fresh

recovery_leaks_example :
    (j : ℕ) × (has installed.order j ≡ true)
    × ((installed.bufs j).blockno ≡ 100)
    × ((installed.bufs j).refcnt ≡ 2 ^ 32 - 1)
    × ((l : List ℕ) → find_free installed.bufs l ≢ some j)
unfolding program
recovery_leaks_example = recovery_leaks 1 3 100 fresh installed (omega arith) refl refl

-- ===== src/Bio/Tests.antt =====
-- kernel/bio.c at concrete inputs: tests of the model, and the theorems applied.
use mp.Prelude.{
  ℕ, ◌%◌, ◌<◌, ◌≡◌, ◌≢◌, refl, ap, ◌==◌, if◌then◌else◌, false, none, ok, panic, Outcome, ◌>>=◌, [],
  ◌∷◌, ◌⊎◌, arith,
}
use mp.Param.{logical_disk_size}
use mp.Prelude.Int.{pos, minus_one}
use mp.Bio.{
  Block, Buf, Bcache, disk_rw, lock_buf, find_cached, find_free, bget, fill, bread, write_copy,
  bwrite, brelse, bpin, holding_buf, block_fails, disk_fails, remove, mirror_of,
}
use mp.Bio.Scan.{has}
use mp.Bio.Invariant.{IsWellFormed, HasRoom}
use mp.Bio.Raid.{WasWritten, bwrite_lem, read_back}
use mp.Bio.Race.{bwrite_race, as_process, in_mirror_transfer, end_write}
use mp.Bio.Steps.{Call, run, run-IsWellFormed}

-- What a test opens to run the code.
program : Unit {0}
unfolding disk_rw lock_buf find_cached find_free bget fill bread write_copy bwrite brelse bpin
    holding_buf block_fails disk_fails remove has run ◌>>=◌
program = tt

abbrev result : Outcome Bcache → Bcache → Bcache
result (ok s) d = s
result _ d = d

abbrev state_of : Outcome (ℕ × Bcache) → Bcache → Bcache
state_of (ok (i, s)) d = s
state_of _ d = d

abbrev blank : Buf
blank = record { valid = false; dev = 0; blockno = 0; holder = none; refcnt = 0; bytes = λ _. 0 }

-- Three unused buffers, and a disk whose halves both hold block `n` as the bytes `n, n, …`.
abbrev fresh : Bcache
fresh = record {
  order = 2 ∷ 1 ∷ 0 ∷ [];
  bufs = λ _. blank;
  platter = λ n _. n % 2048;
  force_read_error_pbn = minus_one;
  force_disk_fail_id = minus_one;
  pid = 7;
}

fresh-IsWellFormed : IsWellFormed fresh
fresh-IsWellFormed = record { unique = λ i j mi mj ne. absurd (ne refl); idle = λ i z. refl }

fresh-HasRoom : HasRoom fresh
fresh-HasRoom i = omega arith

-- Block 5 read into buffer 0, and its first byte changed.
abbrev reading : Bcache
reading = state_of (bread 1 5 fresh) fresh

abbrev changed : Bcache
changed = record reading {
  bufs = λ j. if j == 0 then record (reading.bufs 0) { bytes = λ _. 9 } else reading.bufs j;
}

reading_runs : bread 1 5 fresh ≡ ok (0, reading)
unfolding program
reading_runs = refl

reading_bytes : (reading.bufs 0).bytes 3 ≡ 5
unfolding program
reading_bytes = refl

reading_order :
    (state_of (bread 1 6 (result (brelse 0 reading) reading)) fresh).order ≡ 0 ∷ 2 ∷ 1 ∷ []
unfolding program
reading_order = refl

abbrev disk0_fails : Bcache
disk0_fails = record changed { force_disk_fail_id = pos 0 }

-- With disk 0 failed the write goes to the mirror alone.
degraded_write :
    ((result (bwrite 0 disk0_fails) fresh).platter 5 3 ≡ 5)
    × ((result (bwrite 0 disk0_fails) fresh).platter 2053 3 ≡ 9)
unfolding program
degraded_write = (refl, refl)

run-IsWellFormed_example : IsWellFormed (result (run (Call.read 1 5) fresh) fresh)
unfolding program
run-IsWellFormed_example =
    run-IsWellFormed (Call.read 1 5) fresh (result (run (Call.read 1 5) fresh) fresh) (omega arith)
      fresh-HasRoom refl fresh-IsWellFormed

bwrite_lem_example :
    ((holding_buf 0 changed ≡ false) × (bwrite 0 changed ≡ panic))
    ⊎ ((s' : Bcache) × (bwrite 0 changed ≡ ok s') × WasWritten 0 changed s')
bwrite_lem_example = bwrite_lem 0 changed

halves_equal : (n : ℕ) → n < logical_disk_size → fresh.platter n ≡ fresh.platter (mirror_of n)
halves_equal n h =
    let e : n % 2048 ≡ mirror_of n % 2048 = omega arith in ap {B = Block} (λ v o. v) e

-- The write while disk 0 fails, and the read of the block into another cache.
abbrev written : Bcache
written = result (bwrite 0 disk0_fails) disk0_fails

abbrev restarted : Bcache
restarted = record fresh { platter = written.platter; force_disk_fail_id = pos 0 }

read_back_example : ((state_of (bread 1 5 restarted) fresh).bufs 0).bytes ≡ λ _. 9
unfolding program
read_back_example =
    read_back 0 disk0_fails written restarted (state_of (bread 1 5 restarted) fresh) 1 0
      (omega arith) refl refl refl refl refl refl refl

abbrev failing : Bcache
failing = record fresh { force_disk_fail_id = pos 0 }

abbrev during : Bcache
during = as_process 8 (in_mirror_transfer 0 reading)

bwrite_race_example :
    (◌≢◌ {A = ℕ} 0 1) × (¬ IsWellFormed (end_write 0 5 (state_of (bget 1 5 during) fresh)))
unfolding program
bwrite_race_example =
    bwrite_race 0 reading 8 1 (state_of (bget 1 5 during) fresh) run-IsWellFormed_example
      (omega arith) (omega arith) refl (omega arith) refl

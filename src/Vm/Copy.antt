-- ===== src/Vm/Copy.antt =====
-- kernel/vm.c: `copyout`, `copyin` and `copyinstr`, between kernel memory and user addresses.
use mp.Prelude.{ℕ, zero, suc, ◌+◌, ◌-◌, ◌%◌, ◌^◌, Bool, true, false, ◌||◌, ltb, ◌==◌, if◌then◌else◌}
use mp.Prelude.Int.{ℤ, pos, minus_one}
use mp.Prelude.Update.{update}
use mp.Kalloc.{page_size}
use mp.Str.{Memory}
use mp.Vm.{pg_round_down, Ram, walkaddr}
use mp.Vm.Space.{move_bytes}

-- The bytes up to the end of the page, at most `len`.
abbrev pub chunk : ℕ → ℕ → ℕ
chunk va len = let n = page_size - (va - pg_round_down va) in if ltb len n then len else n

-- A round moves at least one byte, so that `len` rounds are enough.
unfoldable pub out_from : ℕ → ℕ → ℕ → ℕ → ℕ → Ram → ℤ × Ram
out_from pagetable dstva src zero fuel s = (pos 0, s)
out_from pagetable dstva src (suc len) zero s = (pos 0, s)
out_from pagetable dstva src (suc len) (suc fuel) s =
    let va0 = pg_round_down dstva in
    let pa0 = walkaddr pagetable va0 s in
    let n = chunk dstva (suc len) in
    elim (pa0 == 0) [
      | true ↦ (minus_one, s)
      | false ↦
          out_from pagetable ((va0 + page_size) % 2 ^ 64) (src + n) (suc len - n) fuel
            (move_bytes (pa0 + (dstva - va0)) src n s)
    ]

unfoldable pub copyout : ℕ → ℕ → ℕ → ℕ → Ram → ℤ × Ram
copyout pagetable dstva src len s = out_from pagetable dstva src len len s

unfoldable pub in_from : ℕ → ℕ → ℕ → ℕ → ℕ → Ram → ℤ × Ram
in_from pagetable dst srcva zero fuel s = (pos 0, s)
in_from pagetable dst srcva (suc len) zero s = (pos 0, s)
in_from pagetable dst srcva (suc len) (suc fuel) s =
    let va0 = pg_round_down srcva in
    let pa0 = walkaddr pagetable va0 s in
    let n = chunk srcva (suc len) in
    elim (pa0 == 0) [
      | true ↦ (minus_one, s)
      | false ↦
          in_from pagetable (dst + n) ((va0 + page_size) % 2 ^ 64) (suc len - n) fuel
            (move_bytes dst (pa0 + (srcva - va0)) n s)
    ]

unfoldable pub copyin : ℕ → ℕ → ℕ → ℕ → Ram → ℤ × Ram
copyin pagetable dst srcva len s = in_from pagetable dst srcva len len s

-- `got_null`, `dst` and `max` after the inner loop of `copyinstr`, and the memory.
pub record StrRun : Type 0 where
  pub got_null : Bool
  pub dst : ℕ
  pub left : ℕ
  pub mem : Memory

-- The inner loop of `copyinstr`, of `n` bytes.
unfoldable pub copy_str : ℕ → ℕ → ℕ → ℕ → Memory → StrRun
copy_str p dst zero left m = record { got_null = false; dst = dst; left = left; mem = m }
copy_str p dst (suc n) left m =
    let rest = copy_str (p + 1) (dst + 1) n (left - 1) (update m dst (m p)) in
    if m p == 0
    then record { got_null = true; dst = dst; left = left; mem = update m dst 0 }
    else rest

unfoldable pub instr_from : ℕ → ℕ → ℕ → ℕ → ℕ → Ram → ℤ × Ram
instr_from pagetable dst srcva left zero s = (minus_one, s)
instr_from pagetable dst srcva left (suc fuel) s =
    let va0 = pg_round_down srcva in
    let pa0 = walkaddr pagetable va0 s in
    let r = copy_str (pa0 + (srcva - va0)) dst (chunk srcva left) left s.bytes in
    let s' = record s { bytes = r.mem } in
    elim (left == 0 || pa0 == 0) [
      | true ↦ (minus_one, s)
      | false ↦ elim r.got_null [
        | true ↦ (pos 0, s')
        | false ↦ instr_from pagetable r.dst ((va0 + page_size) % 2 ^ 64) r.left fuel s'
      ]
    ]

-- Each round copies at least one byte. The last one finds the count at 0.
unfoldable pub copyinstr : ℕ → ℕ → ℕ → ℕ → Ram → ℤ × Ram
copyinstr pagetable dst srcva max_len s = instr_from pagetable dst srcva max_len (max_len + 1) s

-- ===== src/Pipe.antt =====
-- kernel/pipe.c: the ring of a pipe. A call that has to wait for the other end stops as `waiting`
-- with what it has done so far, and goes on from there after a wakeup.
pub mod Queue
pub mod Transfer
mod Tests
use mp.Prelude.{
  ℕ, zero, suc, ◌+◌, ◌-◌, ◌%◌, ◌^◌, Bool, true, false, not, ◌&&◌, ◌||◌, ◌==◌, if◌then◌else◌, Option,
  none, some, List, [], ◌∷◌,
}
use mp.Prelude.Int.{ℤ, pos, minus_one}
use mp.Prelude.Update.{update}

abbrev pub pipe_size : ℕ
pipe_size = 512

-- `struct pipe`, whose lock the calls below hold throughout. `nread` and `nwrite` are `uint`.
pub record Pipe : Type 0 where
  pub bytes : ℕ → ℕ
  pub nread : ℕ
  pub nwrite : ℕ
  pub readopen : Bool
  pub writeopen : Bool

-- The part of `pipealloc` that fills the page from `kalloc`.
abbrev pub new_pipe : (ℕ → ℕ) → Pipe
new_pipe junk = record { bytes = junk; nread = 0; nwrite = 0; readopen = true; writeopen = true }

-- `pipeclose`, with whether the page is freed.
unfoldable pub pipeclose : Bool → Pipe → Pipe × Bool
pipeclose writable p =
    let p' : Pipe =
      if writable then record p { writeopen = false } else record p { readopen = false } in
    (p', not p'.readopen && not p'.writeopen)

abbrev pub uint_inc : ℕ → ℕ
uint_inc n = (n + 1) % 2 ^ 32

-- `pi->nwrite == pi->nread + PIPESIZE`
abbrev pub is_full : Pipe → Bool
is_full p = p.nwrite == (p.nread + pipe_size) % 2 ^ 32

abbrev pub is_empty : Pipe → Bool
is_empty p = p.nread == p.nwrite

-- `pi->data[pi->nwrite++ % PIPESIZE] = ch`
unfoldable pub put : ℕ → Pipe → Pipe
put ch p = record p { bytes = update p.bytes (p.nwrite % pipe_size) ch; nwrite = uint_inc p.nwrite }

-- `ch = pi->data[pi->nread++ % PIPESIZE]`
unfoldable pub get : Pipe → ℕ × Pipe
get p = (p.bytes (p.nread % pipe_size), record p { nread = uint_inc p.nread })

-- Where a `pipewrite` stands: it has returned, or it sleeps with `i` bytes written.
pub data Writing : Type 0 where
  returned : ℤ → Pipe → Writing
  waiting : ℕ → Pipe → Writing

-- `pipewrite` from byte `i` on, `left` bytes being left. `user i` is what `copyin` finds at
-- `addr + i`, `none` for a fault; `killed` is `pr->killed`.
unfoldable pub pipewrite : (ℕ → Option ℕ) → Bool → ℕ → ℕ → Pipe → Writing
pipewrite user killed i zero p = returned (pos i) p
pipewrite user killed i (suc left) p = elim (is_full p) [
  | true ↦ if not p.readopen || killed then returned minus_one p else waiting i p
  | false ↦ elim (user i) [
    | none ↦ returned (pos i) p
    | some ch ↦ pipewrite user killed (i + 1) left (put ch p)
  ]
]

-- Where a `piperead` stands, with the bytes that `copyout` has delivered.
pub data Reading : Type 0 where
  returned : ℤ → List ℕ → Pipe → Reading
  waiting : Pipe → Reading

-- The loop of `piperead`: the bytes delivered, the value of `i` at the end and the pipe.
-- `writable i` is whether `copyout` succeeds at `addr + i`; a byte that it refuses is gone.
unfoldable pub read_loop : (ℕ → Bool) → ℕ → ℕ → Pipe → ℕ × List ℕ × Pipe
read_loop writable i zero p = (i, [], p)
read_loop writable i (suc left) p = elim (is_empty p) [
  | true ↦ (i, [], p)
  | false ↦
      let (ch, p') = get p in
      elim (writable i) [
        | true ↦ let (n, bytes, q) = read_loop writable (i + 1) left p' in (n, ch ∷ bytes, q)
        | false ↦ (i, [], p')
      ]
]

unfoldable pub piperead : (ℕ → Bool) → Bool → ℕ → Pipe → Reading
piperead writable killed n p =
    let (i, bytes, q) = read_loop writable 0 n p in
    if is_empty p && p.writeopen
    then (if killed then Reading.returned minus_one [] p else Reading.waiting p)
    else Reading.returned (pos i) bytes q

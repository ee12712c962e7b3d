-- ===== src/Pipe/Tests.antt =====
-- kernel/pipe.c at concrete inputs: tests of the model, and the theorems applied.
use mp.Prelude.{
  ℕ, ◌+◌, ◌≡◌, refl, true, false, some, none, Option, if◌then◌else◌, ltb, [], ◌∷◌, arith,
}
use mp.Prelude.Int.{pos, minus_one}
use mp.Pipe.{
  Pipe, new_pipe, pipeclose, put, get, returned, waiting, Reading, pipewrite, read_loop, piperead,
}
use mp.Pipe.Queue.{IsValid, window, contents}
use mp.Pipe.Transfer.{Wrote, pipewrite-Wrote, Took, read_loop-Took, pipe_of}

abbrev fresh : Pipe
fresh = new_pipe (λ _. 5)

abbrev user : ℕ → Option ℕ
user i = if ltb i 3 then some (10 + i) else none

abbrev three : Pipe
three = pipe_of (pipewrite user false 0 9 fresh)

fresh-IsValid : IsValid fresh
fresh-IsValid = omega arith

writes :
    (pipewrite user false 0 9 fresh ≡ returned (pos 3) three) × (contents three ≡ 10 ∷ 11 ∷ 12 ∷ [])
unfolding pipewrite put contents window
writes = (refl, refl)

reads :
    (piperead (λ _. true) false 2 three
      ≡ Reading.returned (pos 2) (10 ∷ 11 ∷ []) (record three { nread = 2 }))
    × (piperead (λ _. true) false 2 fresh ≡ Reading.waiting fresh)
    × (piperead (λ _. true) true 2 fresh ≡ Reading.returned minus_one [] fresh)
unfolding piperead read_loop pipewrite put get
reads = (refl, refl, refl)

closes : ((pipeclose true fresh).1 ≡ false) × ((pipeclose false (pipeclose true fresh).0).1 ≡ true)
unfolding pipeclose
closes = (refl, refl)

full_pipe :
    pipewrite (λ i. some i) false 0 600 fresh
    ≡ waiting 512 (pipe_of (pipewrite (λ i. some i) false 0 600 fresh))
unfolding pipewrite put
full_pipe = refl

pipewrite-Wrote_example : Wrote user false 0 9 fresh (pipewrite user false 0 9 fresh)
pipewrite-Wrote_example = pipewrite-Wrote user false 0 9 fresh fresh-IsValid

read_loop-Took_example : Took (λ i. ltb i 2) 0 9 fresh 0 [] fresh
unfolding read_loop
read_loop-Took_example = read_loop-Took (λ i. ltb i 2) 0 9 fresh fresh-IsValid

-- ===== src/Str/Tests.antt =====
-- kernel/string.c at concrete inputs: tests of the model, and the theorems applied.
use mp.Prelude.{◌+◌, ◌-◌, ◌%◌, ◌≡◌, ◌↔◌, refl, ◌&&◌, ltb, leb, if◌then◌else◌, arith}
use mp.Prelude.Int.{pos}
use mp.Prelude.Update.{update}
use mp.Str.{Memory, memset, move_down, move_up, memmove, strncmp, strlen_from}
use mp.Str.Move.{memmove_lem, memset_lem}
use mp.Str.Names.{SameName, strncmp_iff, strlen_lem}

-- "abc" and a NUL at address 10.
abbrev text : Memory
text = update (update (update (λ _. 0) 10 b'a') 11 b'b') 12 b'c'

overlap :
    (memmove 11 10 3 text 11 ≡ b'a')
    × (memmove 11 10 3 text 13 ≡ b'c')
    × (memmove 9 10 3 text 9 ≡ b'a')
unfolding memmove move_down move_up
overlap = (refl, refl, refl)

length_of_text : strlen_from 10 0 100 text ≡ 3
unfolding strlen_from
length_of_text = refl

memmove_lem_example :
    memmove 11 10 3 text 13
    ≡ (if leb 11 13 && ltb 13 (11 + 3) then text (10 + (13 - 11)) else text 13)
memmove_lem_example = memmove_lem 11 10 3 text 13

memset_lem_example :
    memset 10 263 2 text 11 ≡ (if leb 10 11 && ltb 11 (10 + 2) then 263 % 256 else text 11)
memset_lem_example = memset_lem 10 263 2 text 11

strncmp_iff_example : (strncmp 10 20 14 text ≡ pos 0) ↔ SameName 10 20 14 text
strncmp_iff_example = strncmp_iff 10 20 14 text

strlen_lem_example : strlen_from 10 0 100 text ≡ 3
strlen_lem_example = strlen_lem 10 100 3 text refl (λ i h. ground arith) (omega arith)

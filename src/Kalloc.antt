-- ===== src/Kalloc.antt =====
-- kernel/kalloc.c: the allocator of physical pages. A free page holds the address of the next one in
-- its first word, and 0 ends the list.
pub mod FreeList
mod Tests
use mp.Prelude.{
  ℕ, zero, suc, ◌+◌, ◌-◌, ◌*◌, ◌/◌, ◌%◌, ◌^◌, Bool, true, false, not, ◌||◌, ◌==◌, ltb, leb,
  if◌then◌else◌, Outcome, ok, panic, ◌>>=◌,
}
use mp.Prelude.Update.{update}

abbrev pub page_size : ℕ
page_size = 4096

-- `KERNBASE + 128 * 1024 * 1024` of memlayout.h.
abbrev pub phystop : ℕ
phystop = 0x80000000 + 128 * 1024 * 1024

-- `kmem`, the word at the start of each page, and the address `end` that the linker gives.
pub record Kmem : Type 0 where
  pub freelist : ℕ
  pub word : ℕ → ℕ
  pub end_address : ℕ

-- The first word of a page after `memset(pa, c, PGSIZE)`.
abbrev pub junk : ℕ → ℕ
junk c = c * 0x0101010101010101

unfoldable pub kfree : ℕ → Kmem → Outcome Kmem
kfree pa k =
    let filled = update k.word pa (junk 1) in
    if not (pa % page_size == 0) || ltb pa k.end_address || leb phystop pa
    then panic
    else ok (record k { freelist = pa; word = update filled pa k.freelist })

-- The address, 0 if there is no page.
unfoldable pub kalloc : Kmem → ℕ × Kmem
kalloc k =
    let r = k.freelist in
    if r == 0
    then (0, k)
    else (r, record k { freelist = k.word r; word = update k.word r (junk 5) })

-- `PGROUNDUP` of riscv.h, on `uint64`.
abbrev pub pg_round_up : ℕ → ℕ
pg_round_up a = (a + page_size - 1) % 2 ^ 64 / page_size * page_size

-- The loop of `freerange` from `p` on; `rounds` pages end at or before `pa_end`.
unfoldable pub free_from : ℕ → ℕ → Kmem → Outcome Kmem
free_from p zero k = ok k
free_from p (suc rounds) k = do k' ← kfree p k; free_from (p + page_size) rounds k'

-- The number of rounds for which `p + PGSIZE <= pa_end` holds.
unfoldable pub freerange : ℕ → ℕ → Kmem → Outcome Kmem
freerange pa_start pa_end k =
    let p = pg_round_up pa_start in free_from p ((pa_end - p) / page_size) k

unfoldable pub kinit : Kmem → Outcome Kmem
kinit k = freerange k.end_address phystop k

-- ===== src/Vm/Space.antt =====
-- kernel/vm.c: the user half, from `uvmcreate` to `uvmclear`, and `kvminit`.
use mp.Prelude.{
  ℕ, zero, suc, ◌+◌, ◌-◌, ◌/◌, ◌%◌, Bool, true, false, not, Option, none, some, ltb, leb, ◌==◌,
  if◌then◌else◌, Outcome, ok, panic, asleep, ◌>>=◌,
}
use mp.Prelude.Int.{ℤ, pos, eqb, minus_one}
use mp.Kalloc.{page_size, phystop, pg_round_up}
use mp.Str.{memmove}
use mp.Vm.{
  maxva, is_valid, is_user, pte2pa, pte_flags, Ram, set_page, alloc_page, free_page, set_entry,
  walk, mappages, kvmmap, uvmunmap,
}

unfoldable pub uvmcreate : Ram → ℕ × Ram
uvmcreate s = let (page, s') = alloc_page s in (page, if page == 0 then s' else set_page page 0 s')

-- The permissions PTE_W | PTE_X | PTE_R | PTE_U of user memory.
abbrev pub user_perm : ℕ
user_perm = 4 + 8 + 2 + 16

-- `memmove`, on the bytes.
abbrev pub move_bytes : ℕ → ℕ → ℕ → Ram → Ram
move_bytes dst src n s = record s { bytes = memmove dst src n s.bytes }

-- As in the code, the result of `kalloc` is not tested.
unfoldable pub uvminit : ℕ → ℕ → ℕ → Ram → Outcome Ram
uvminit pagetable src sz s =
    let (mem, s') = alloc_page s in
    if leb page_size sz then panic else do
      (r, s'') ← mappages pagetable 0 page_size mem user_perm (set_page mem 0 s')
      ok (move_bytes mem src sz s'')

-- The number of pages fits an `int`, since sizes are below MAXVA.
unfoldable pub uvmdealloc : ℕ → ℕ → ℕ → Ram → Outcome (ℕ × Ram)
uvmdealloc pagetable oldsz newsz s =
    let npages = (pg_round_up oldsz - pg_round_up newsz) / page_size in
    let unmapped = uvmunmap pagetable (pg_round_up newsz) npages true s in
    if leb oldsz newsz then ok (oldsz, s) else do
      s' ← if ltb (pg_round_up newsz) (pg_round_up oldsz) then unmapped else ok s
      ok (newsz, s')

-- The two error paths of `uvmalloc`: what was allocated up to `a` is given back.
unfoldable pub undo_alloc : ℕ → ℕ → ℕ → Ram → Outcome (ℕ × Ram)
undo_alloc pagetable a oldsz s = do (_, s') ← uvmdealloc pagetable a oldsz s; ok (0, s')

-- The body of the loop of `uvmalloc`, with `memset`: the result of `mappages`, and the page.
unfoldable pub alloc_one : ℕ → ℕ → ℕ → Ram → Outcome (ℤ × Ram)
alloc_one pagetable a mem s = mappages pagetable a page_size mem user_perm (set_page mem 0 s)

unfoldable pub alloc_from : ℕ → ℕ → ℕ → ℕ → ℕ → Ram → Outcome (ℕ × Ram)
alloc_from pagetable a oldsz newsz zero s = ok (newsz, s)
alloc_from pagetable a oldsz newsz (suc rounds) s =
    let (mem, s') = alloc_page s in
    elim (mem == 0) [
      | true ↦ undo_alloc pagetable a oldsz s'
      | false ↦ do
        (r, s'') ← alloc_one pagetable a mem s'
        if eqb r (pos 0)
            then alloc_from pagetable (a + page_size) oldsz newsz rounds s''
            else do s''' ← free_page mem s''; undo_alloc pagetable a oldsz s'''
    ]

-- The number of rounds with `a < newsz`.
unfoldable pub uvmalloc : ℕ → ℕ → ℕ → Ram → Outcome (ℕ × Ram)
uvmalloc pagetable oldsz newsz s =
    let from = pg_round_up oldsz in
    if ltb newsz oldsz
    then ok (oldsz, s)
    else alloc_from pagetable from from newsz ((newsz - from + (page_size - 1)) / page_size) s

-- `pte & (PTE_R | PTE_W | PTE_X)`, as a test.
abbrev pub is_leaf : ℕ → Bool
is_leaf pte = not (pte / 2 % 8 == 0)

-- The loop of `freewalk` from the entry `i` on, given the recursive call.
unfoldable pub free_entries : (ℕ → Ram → Outcome Ram) → ℕ → ℕ → ℕ → Ram → Outcome Ram
free_entries below pagetable i zero s = ok s
free_entries below pagetable i (suc left) s =
    let pte = s.entry pagetable i in
    let child = below (pte2pa pte) s in
    do
      s' ←
          if not (is_valid pte)
          then ok s
          else if is_leaf pte
          then panic
          else (do s'' ← child; ok (set_entry pagetable i 0 s''))
      free_entries below pagetable (i + 1) left s'

-- On the depth: a table has three levels.
unfoldable pub freewalk : ℕ → ℕ → Ram → Outcome Ram
freewalk zero pagetable s = asleep
freewalk (suc depth) pagetable s = do
  s' ← free_entries (freewalk depth) pagetable 0 512 s
  free_page pagetable s'

unfoldable pub uvmfree : ℕ → ℕ → Ram → Outcome Ram
uvmfree pagetable sz s =
    let unmapped = uvmunmap pagetable 0 (pg_round_up sz / page_size) true s in
    do s' ← if ltb 0 sz then unmapped else ok s; freewalk 3 pagetable s'

-- The label `err` of `uvmcopy`.
unfoldable pub undo_copy : ℕ → ℕ → Ram → Outcome (ℤ × Ram)
undo_copy new i s = do s' ← uvmunmap new 0 (i / page_size) true s; ok (minus_one, s')

-- The entry that `uvmcopy` copies.
unfoldable pub present : Option (ℕ × ℕ) → Ram → Outcome ℕ
present none s = panic
present (some (table, i)) s =
    if not (is_valid (s.entry table i)) then panic else ok (s.entry table i)

-- The body of the loop of `uvmcopy` once there is a page: the copy, and the result of `mappages`.
unfoldable pub copy_one : ℕ → ℕ → ℕ → ℕ → Ram → Outcome (ℤ × Ram)
copy_one new i pte mem s =
    mappages new i page_size mem (pte_flags pte) (move_bytes mem (pte2pa pte) page_size s)

unfoldable pub copy_from : ℕ → ℕ → ℕ → ℕ → Ram → Outcome (ℤ × Ram)
copy_from old new i zero s = ok (pos 0, s)
copy_from old new i (suc rounds) s = do
  (slot, s0) ← walk old i false s
  pte ← present slot s0
  let (mem, s') = alloc_page s0
  elim (mem == 0) [
    | true ↦ undo_copy new i s'
    | false ↦ do
      (r, s'') ← copy_one new i pte mem s'
      if eqb r (pos 0)
          then copy_from old new (i + page_size) rounds s''
          else do s''' ← free_page mem s''; undo_copy new i s'''
  ]

-- The number of rounds with `i < sz`.
unfoldable pub uvmcopy : ℕ → ℕ → ℕ → Ram → Outcome (ℤ × Ram)
uvmcopy old new sz s = copy_from old new 0 ((sz + (page_size - 1)) / page_size) s

-- `*pte &= ~PTE_U`
unfoldable pub clear_user : Option (ℕ × ℕ) → Ram → Outcome Ram
clear_user none s = panic
clear_user (some (table, i)) s =
    let pte = s.entry table i in ok (set_entry table i (if is_user pte then pte - 16 else pte) s)

unfoldable pub uvmclear : ℕ → ℕ → Ram → Outcome Ram
uvmclear pagetable va s = do (slot, s') ← walk pagetable va false s; clear_user slot s'

-- `kvminit`, with the addresses `etext` and `trampoline` of the linker. The addresses of the devices
-- are those of memlayout.h. As in the code, the result of `kalloc` is not tested.
unfoldable pub kvminit : ℕ → ℕ → Ram → Outcome (ℕ × Ram)
kvminit etext trampoline s =
    let (t, s0) = alloc_page s in
    do
      s1 ← kvmmap t 0x10000000 0x10000000 page_size (2 + 4) (set_page t 0 s0)
      s2 ← kvmmap t 0x10001000 0x10001000 page_size (2 + 4) s1
      s3 ← kvmmap t 0x2000000 0x2000000 0x10000 (2 + 4) s2
      s4 ← kvmmap t 0x0c000000 0x0c000000 0x400000 (2 + 4) s3
      s5 ← kvmmap t 0x80000000 0x80000000 (etext - 0x80000000) (2 + 8) s4
      s6 ← kvmmap t etext etext (phystop - etext) (2 + 4) s5
      s7 ← kvmmap t (maxva - page_size) trampoline page_size (2 + 8) s6
      ok (t, s7)

-- ===== src/Vm.antt =====
-- kernel/vm.c: page tables. A table is the address of its page and an entry its index there.
pub mod Tree
pub mod Grown
pub mod Walk
pub mod Leaf
pub mod MapPage
pub mod Mapping
pub mod UnmapPage
pub mod Unmap
pub mod Space
mod Tests
pub mod Copy
pub mod Lookup
pub mod Range
pub mod Transfer
pub mod Receive
use mp.Prelude.{
  ℕ, zero, suc, ◌+◌, ◌-◌, ◌*◌, ◌/◌, ◌%◌, ◌^◌, Bool, true, false, not, ◌&&◌, ◌||◌, ◌==◌, ltb, leb,
  if◌then◌else◌, Option, none, some, Outcome, ok, panic, ◌>>=◌,
}
use mp.Prelude.Int.{ℤ, pos, minus_one}
use mp.Prelude.Update.{update}
use mp.Kalloc.{Kmem, page_size, junk, kalloc, kfree}
use mp.Str.{Memory, memset}

-- `MAXVA` of riscv.h, and the bits of an entry.
abbrev pub maxva : ℕ
maxva = 2 ^ 38

abbrev pub pte_v : ℕ
pte_v = 1

abbrev pub is_valid : ℕ → Bool
is_valid pte = pte % 2 == 1

abbrev pub is_user : ℕ → Bool
is_user pte = pte / 16 % 2 == 1

-- `PTE2PA`, `PA2PTE`, `PTE_FLAGS` and `PX`
abbrev pub pte2pa : ℕ → ℕ
pte2pa pte = pte / 1024 * 4096 % 2 ^ 64

abbrev pub pa2pte : ℕ → ℕ
pa2pte pa = pa / 4096 * 1024

abbrev pub pte_flags : ℕ → ℕ
pte_flags pte = pte % 1024

abbrev pub px : ℕ → ℕ → ℕ
px level va = va / 2 ^ (12 + 9 * level) % 512

-- `PGROUNDDOWN`
abbrev pub pg_round_down : ℕ → ℕ
pg_round_down a = a / page_size * page_size

-- `x | PTE_V`
abbrev pub with_v : ℕ → ℕ
with_v x = if is_valid x then x else x + 1

-- Physical memory: the allocator, the entries of a page that is a table, and the bytes. A page is used
-- in one way at a time; `memset` of a page shows in both.
pub record Ram : Type 0 where
  pub kmem : Kmem
  pub entry : ℕ → ℕ → ℕ
  pub bytes : Memory

-- `memset(page, c, PGSIZE)`
unfoldable pub set_page : ℕ → ℕ → Ram → Ram
set_page page c s = record s {
  entry = update s.entry page (λ _. junk c);
  bytes = memset page c page_size s.bytes;
}

-- `kalloc()` and `kfree(page)`, with what they store in the page.
unfoldable pub alloc_page : Ram → ℕ × Ram
alloc_page s =
    let (page, k) = kalloc s.kmem in
    let s' = record s { kmem = k } in (page, if page == 0 then s' else set_page page 5 s')

unfoldable pub free_page : ℕ → Ram → Outcome Ram
free_page page s = do k ← kfree page s.kmem; ok (set_page page 1 (record s { kmem = k }))

abbrev pub set_entry : ℕ → ℕ → ℕ → Ram → Ram
set_entry table i pte s = record s { entry = update s.entry table (update (s.entry table) i pte) }

-- A round of the loop of `walk`: the table of the next level, none for a return of 0.
unfoldable pub descend : ℕ → ℕ → Bool → Ram → Option ℕ × Ram
descend table i alloc s =
    let pte = s.entry table i in
    let (page, s') = alloc_page s in
    if is_valid pte
    then (some (pte2pa pte), s)
    else if not alloc
    then (none, s)
    else if page == 0
    then (none, s')
    else (some page, set_entry table i (pa2pte page + pte_v) (set_page page 0 s'))

-- The last step of `walk`.
unfoldable pub at_leaf : ℕ → Option ℕ × Ram → Option (ℕ × ℕ) × Ram
at_leaf va (none, s) = (none, s)
at_leaf va (some table, s) = (some (table, px 0 va), s)

unfoldable pub walk_on : ℕ → Bool → Option ℕ × Ram → Option (ℕ × ℕ) × Ram
walk_on va alloc (none, s) = (none, s)
walk_on va alloc (some table, s) = at_leaf va (descend table (px 1 va) alloc s)

-- The table and the index of the entry, none for 0.
unfoldable pub walk : ℕ → ℕ → Bool → Ram → Outcome (Option (ℕ × ℕ) × Ram)
walk pagetable va alloc s =
    if leb maxva va then panic else ok (walk_on va alloc (descend pagetable (px 2 va) alloc s))

-- `walkaddr` after the call of `walk`.
unfoldable pub user_address : Option (ℕ × ℕ) → Ram → ℕ
user_address none s = 0
user_address (some (table, i)) s =
    let pte = s.entry table i in
    if not (is_valid pte) then 0 else if not (is_user pte) then 0 else pte2pa pte

unfoldable pub walkaddr : ℕ → ℕ → Ram → ℕ
walkaddr pagetable va s =
    if leb maxva va
    then 0
    else user_address (walk_on va false (descend pagetable (px 2 va) false s)).0 s

-- `kvmpa`, with the kernel's page table as an argument.
unfoldable pub kernel_address : ℕ → Option (ℕ × ℕ) → Ram → Outcome ℕ
kernel_address off none s = panic
kernel_address off (some (table, i)) s =
    if not (is_valid (s.entry table i)) then panic else ok (pte2pa (s.entry table i) + off)

unfoldable pub kvmpa : ℕ → ℕ → Ram → Outcome ℕ
kvmpa pagetable va s = do
  (pte, s') ← walk pagetable va false s
  kernel_address (va % page_size) pte s'

-- The body of the loop of `mappages` after the call of `walk`. `perm` is below 1024, where `|` adds it
-- to the address. The test is of `pte == 0`.
unfoldable pub map_entry : Option (ℕ × ℕ) → ℕ → ℕ → Ram → Outcome (Bool × Ram)
map_entry none pa perm s = ok (false, s)
map_entry (some (table, i)) pa perm s =
    if is_valid (s.entry table i)
    then panic
    else ok (true, set_entry table i (pa2pte pa + with_v perm) s)

unfoldable pub map_page : ℕ → ℕ → ℕ → ℕ → Ram → Outcome (Bool × Ram)
map_page pagetable a pa perm s = do (pte, s') ← walk pagetable a true s; map_entry pte pa perm s'

-- The loop of `mappages`. After `MAXVA / PGSIZE` rounds `a` is at MAXVA or above, where `walk` panics.
unfoldable pub map_from : ℕ → ℕ → ℕ → ℕ → ℕ → ℕ → Ram → Outcome (ℤ × Ram)
map_from pagetable a last pa perm zero s = panic
map_from pagetable a last pa perm (suc fuel) s = do
  (done, s') ← map_page pagetable a pa perm s
  if not done then ok (minus_one, s') else elim (a == last) [
    | true ↦ ok (pos 0, s')
    | false ↦ map_from pagetable (a + page_size) last ((pa + page_size) % 2 ^ 64) perm fuel s'
  ]

unfoldable pub mappages : ℕ → ℕ → ℕ → ℕ → ℕ → Ram → Outcome (ℤ × Ram)
mappages pagetable va size pa perm s =
    map_from pagetable (pg_round_down va) (pg_round_down ((va + size + (2 ^ 64 - 1)) % 2 ^ 64)) pa
      perm (maxva / page_size) s

unfoldable pub kvmmap : ℕ → ℕ → ℕ → ℕ → ℕ → Ram → Outcome Ram
kvmmap pagetable va pa sz perm s = do
  (r, s') ← mappages pagetable va sz pa perm s
  elim r [ pos zero ↦ ok s' | _ ↦ panic ]

-- The body of the loop of `uvmunmap` after the call of `walk`.
unfoldable pub unmap_entry : Option (ℕ × ℕ) → Bool → Ram → Outcome Ram
unmap_entry none do_free s = panic
unmap_entry (some (table, i)) do_free s =
    let pte = s.entry table i in
    let freed = free_page (pte2pa pte) s in
    if not (is_valid pte)
    then panic
    else if pte_flags pte == pte_v
    then panic
    else do s' ← if do_free then freed else ok s; ok (set_entry table i 0 s')

unfoldable pub unmap_page : ℕ → ℕ → Bool → Ram → Outcome Ram
unmap_page pagetable a do_free s = do
  (pte, s') ← walk pagetable a false s
  unmap_entry pte do_free s'

unfoldable pub unmap_from : ℕ → ℕ → Bool → ℕ → Ram → Outcome Ram
unmap_from pagetable a do_free zero s = ok s
unmap_from pagetable a do_free (suc rounds) s = do
  s' ← unmap_page pagetable a do_free s
  unmap_from pagetable (a + page_size) do_free rounds s'

-- The rounds with `a < va + npages * PGSIZE`.
unfoldable pub uvmunmap : ℕ → ℕ → ℕ → Bool → Ram → Outcome Ram
uvmunmap pagetable va npages do_free s =
    if not (va % page_size == 0)
    then panic
    else unmap_from pagetable va do_free (((va + npages * page_size) % 2 ^ 64 - va) / page_size) s

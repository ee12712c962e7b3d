-- ===== src/Vm/Lookup.antt =====
-- kernel/vm.c: what `walk` without `alloc` and `walkaddr` find.
use mp.Prelude.{
  ℕ, ◌%◌, ◌<◌, ◌≡◌, refl, ap, inl, inr, true, false, ◌&&◌, Option, none, some, arith, leb,
  if◌then◌else◌, Bool-cases, ok,
}
use mp.Kalloc.{page_size}
use mp.Vm.{
  maxva, is_valid, is_user, pte2pa, px, Ram, descend, at_leaf, walk_on, walk, user_address,
  walkaddr,
}
use mp.Vm.Tree.{pte_at}

descend_missing :
    (t i : ℕ) (s : Ram) → is_valid (s.entry t i) ≡ false → descend t i false s ≡ (none, s)
unfolding descend
descend_missing t i s gone = ground (arith, gone)

descend_there :
    (t i : ℕ) (s : Ram)
    → is_valid (s.entry t i) ≡ true
    → descend t i false s ≡ (some (pte2pa (s.entry t i)), s)
unfolding descend
descend_there t i s v = ground (arith, v)

-- The slot of an entry, none where a table on the way is missing.
abbrev pub slot : ℕ → (ℕ → ℕ → ℕ) → ℕ → Option (ℕ × ℕ)
slot root e va =
    let mid = e root (px 2 va) in
    let low = e (pte2pa mid) (px 1 va) in
    if is_valid mid && is_valid low then some (pte2pa low, px 0 va) else none

walk_on_lem :
    (root va : ℕ) (s : Ram)
    → walk_on va false (descend root (px 2 va) false s) ≡ (slot root s.entry va, s)
unfolding walk_on at_leaf
walk_on_lem root va s =
    let mid = s.entry root (px 2 va) in
    elim (Bool-cases (is_valid mid)) [
      | inr v ↦ rw (descend_missing root (px 2 va) s v, v) refl
      | inl v ↦ elim (Bool-cases (is_valid (s.entry (pte2pa mid) (px 1 va)))) [
        | inr w ↦
            rw (descend_there root (px 2 va) s v, v, descend_missing (pte2pa mid) (px 1 va) s w, w)
              refl
        | inl w ↦
            rw (descend_there root (px 2 va) s v, v, descend_there (pte2pa mid) (px 1 va) s w, w)
              refl
      ]
    ]

-- `walk` without `alloc` changes nothing.
pub walk_lem :
    (root va : ℕ) (s : Ram) → va < maxva → walk root va false s ≡ ok (slot root s.entry va, s)
unfolding walk
walk_lem root va s lt = rw (le→leb va lt) (ap ok (walk_on_lem root va s))
  where
    le→leb : (va : ℕ) → va < maxva → leb maxva va ≡ false
    le→leb va lt = ground arith

-- The physical page of a user address: 0 if there is none.
abbrev pub user_page : ℕ → (ℕ → ℕ → ℕ) → ℕ → ℕ
user_page root e va =
    let pte = pte_at root e va in
    if leb maxva va then 0 else if is_valid pte && is_user pte then pte2pa pte else 0

pub walkaddr_lem : (root va : ℕ) (s : Ram) → walkaddr root va s ≡ user_page root s.entry va
unfolding walkaddr user_address
walkaddr_lem root va s =
    let mid = s.entry root (px 2 va) in
    let low = s.entry (pte2pa mid) (px 1 va) in
    rw (walk_on_lem root va s) (elim (Bool-cases (is_valid mid && is_valid low)) [
      | inl v ↦ rw v (ground arith)
      | inr v ↦ rw v (ground arith)
    ])

pub user_page_aligned : (root : ℕ) (e : ℕ → ℕ → ℕ) (va : ℕ) → user_page root e va % page_size ≡ 0
user_page_aligned root e va = ground arith

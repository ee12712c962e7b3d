-- ===== src/Vm/Tree.antt =====
-- kernel/vm.c: the pages of a page table form a tree, and `walk` with `alloc` extends it without a
-- change of what the table maps.
use mp.Prelude.{
  ℕ, ◌+◌, ◌*◌, ◌%◌, ◌<◌, ◌≡◌, refl, ◌≢◌, ◌⊎◌, inl, inr, true, false, ◌&&◌, List, arith, ◌==◌,
  if◌then◌else◌, ==→eq, ==→ne, Bool-cases, All,
}
use mp.Prelude.Update.{update}
use mp.Kalloc.{phystop}
use mp.Kalloc.FreeList.{Holds}
use mp.Vm.{pte_v, is_valid, pte2pa, pa2pte, px, Ram}

-- The place of a page in the tree: the root, the second level by its index in the root, the third by
-- both indices, and 0 for every other page.
abbrev pub root_place : ℕ
root_place = 1

abbrev pub mid_place : ℕ → ℕ
mid_place i = 2 + i

abbrev pub low_place : ℕ → ℕ → ℕ
low_place i j = 1000 + 512 * i + j

-- What the table has for a virtual address: its entry, 0 where a table on the way is missing.
abbrev pub pte_at : ℕ → (ℕ → ℕ → ℕ) → ℕ → ℕ
pte_at root e va =
    let mid = e root (px 2 va) in
    let low = e (pte2pa mid) (px 1 va) in
    if is_valid mid && is_valid low then e (pte2pa low) (px 0 va) else 0

pub record IsTree (place : ℕ → ℕ) (root : ℕ) (e : ℕ → ℕ → ℕ) : Type 0 where
  pub at_root : place root ≡ root_place
  pub mids :
      (i : ℕ) → i < 512 → is_valid (e root i) ≡ true → place (pte2pa (e root i)) ≡ mid_place i
  pub lows :
      (t i j : ℕ)
      → i < 512
      → j < 512
      → place t ≡ mid_place i
      → is_valid (e t j) ≡ true
      → place (pte2pa (e t j)) ≡ low_place i j

-- A tree, and free pages outside it.
pub record IsSound (place : ℕ → ℕ) (root : ℕ) (s : Ram) (free : List ℕ) : Type 0 where
  pub tree : IsTree place root s.entry
  pub holds : Holds s.kmem free
  pub outside : All (λ p. place p ≡ 0) free

-- The entries after a missing table `p` was put at `i` in `t`.
abbrev pub grown : (ℕ → ℕ → ℕ) → ℕ → ℕ → ℕ → ℕ → ℕ → ℕ
grown e t i p =
    let cleared = update e p (λ _. 0) in update cleared t (update (cleared t) i (pa2pte p + pte_v))

pub pte2pa-pa2pte : (p : ℕ) → p % 4096 ≡ 0 → p < phystop → pte2pa (pa2pte p + pte_v) ≡ p
pte2pa-pa2pte p al hi = omega arith

pub is_valid-pa2pte : (p : ℕ) → is_valid (pa2pte p + pte_v) ≡ true
is_valid-pa2pte p = ground arith

-- A new table at a missing entry of the root.
pub grown_mid :
    (place : ℕ → ℕ) (root : ℕ) (e : ℕ → ℕ → ℕ) (i p : ℕ)
    → IsTree place root e
    → i < 512
    → is_valid (e root i) ≡ false
    → place p ≡ 0
    → p % 4096 ≡ 0
    → p < phystop
    → IsTree (update place p (mid_place i)) root (grown e root i p)
grown_mid place root e i p h hi gone out al below =
    let back = pte2pa-pa2pte p al below in
    record {
      at_root = ground (arith, h.at_root);
      mids = λ k hk v. ground (arith, h.at_root, h.mids k hk, back);
      lows = λ t k j hk hj pl v. ground (arith, h.at_root, h.lows t k j hk hj);
    }

-- A new table at a missing entry of a table of the second level.
pub grown_low :
    (place : ℕ → ℕ) (root : ℕ) (e : ℕ → ℕ → ℕ) (t i j p : ℕ)
    → IsTree place root e
    → i < 512
    → j < 512
    → place t ≡ mid_place i
    → is_valid (e t j) ≡ false
    → place p ≡ 0
    → p % 4096 ≡ 0
    → p < phystop
    → IsTree (update place p (low_place i j)) root (grown e t j p)
grown_low place root e t i j p h hi hj at_t gone out al below =
    let back = pte2pa-pa2pte p al below in
    record {
      at_root = ground (arith, h.at_root);
      mids = λ k hk v. ground (arith, h.at_root, h.mids k hk);
      lows = λ t' k l hk hl pl v. ground (arith, h.at_root, h.lows t' k l hk hl, back);
    }

-- Two sets of entries that agree along the way of an address.
pub pte_at-agree :
    (root : ℕ) (e e' : ℕ → ℕ → ℕ) (va : ℕ)
    → e' root (px 2 va) ≡ e root (px 2 va)
    → (is_valid (e root (px 2 va)) ≡ true
        → e' (pte2pa (e root (px 2 va))) (px 1 va) ≡ e (pte2pa (e root (px 2 va))) (px 1 va))
    → (is_valid (e root (px 2 va)) ≡ true
        → let low = e (pte2pa (e root (px 2 va))) (px 1 va) in
          is_valid low ≡ true → e' (pte2pa low) (px 0 va) ≡ e (pte2pa low) (px 0 va))
    → pte_at root e' va ≡ pte_at root e va
pte_at-agree root e e' va a b c = elim (Bool-cases (is_valid (e root (px 2 va)))) [
  | inl v ↦ elim (Bool-cases (is_valid (e (pte2pa (e root (px 2 va))) (px 1 va)))) [
    | inl w ↦ rw (a, b v, v, w) (c v w)
    | inr w ↦ rw (a, b v, v, w) refl
  ]
  | inr v ↦ rw (a, v) refl
]

pub grown_other :
    (e : ℕ → ℕ → ℕ) (t i p t' k : ℕ) → t' ≢ p → (t' ≢ t) ⊎ (k ≢ i) → grown e t i p t' k ≡ e t' k
grown_other e t i p t' k np (inl nt) = ground arith
grown_other e t i p t' k np (inr ni) = ground arith

pub grown_link : (e : ℕ → ℕ → ℕ) (t i p : ℕ) → t ≢ p → grown e t i p t i ≡ pa2pte p + pte_v
grown_link e t i p ne = ground arith

grown_new : (e : ℕ → ℕ → ℕ) (t i p k : ℕ) → t ≢ p → grown e t i p p k ≡ 0
grown_new e t i p k ne = ground arith

pub px_lt : (level va : ℕ) → px level va < 512
px_lt level va = omega arith

pub grown_mid-pte_at :
    (place : ℕ → ℕ) (root : ℕ) (e : ℕ → ℕ → ℕ) (i p va : ℕ)
    → IsTree place root e
    → is_valid (e root i) ≡ false
    → place p ≡ 0
    → p % 4096 ≡ 0
    → p < phystop
    → pte_at root (grown e root i p) va ≡ pte_at root e va
grown_mid-pte_at place root e i p va h gone out al below =
    let ne : root ≢ p = λ q. ground (arith, h.at_root) in
    elim (Bool-cases (px 2 va == i)) [
      | inl q ↦
          let here : px 2 va ≡ i = ==→eq (px 2 va) i q in
          rw
            (
              here,
              grown_link e root i p ne,
              is_valid-pa2pte p,
              pte2pa-pa2pte p al below,
              grown_new e root i p (px 1 va) ne,
              gone,
            )
            refl
      | inr q ↦
          let away : px 2 va ≢ i = ==→ne (px 2 va) i q in
          let mid = e root (px 2 va) in
          let at_mid = h.mids (px 2 va) (px_lt 2 va) in
          let low = e (pte2pa mid) (px 1 va) in
          let at_low = λ (v : is_valid mid ≡ true).
            h.lows (pte2pa mid) (px 2 va) (px 1 va) (px_lt 2 va) (px_lt 1 va) (at_mid v) in
          pte_at-agree root e (grown e root i p) va
            (grown_other e root i p root (px 2 va) ne (inr away))
            (λ v.
              grown_other e root i p (pte2pa mid) (px 1 va) (λ r. ground (arith, at_mid v))
                (inl (λ r. ground (arith, at_mid v, h.at_root))))
            (λ v w.
              grown_other e root i p (pte2pa low) (px 0 va) (λ r. ground (arith, at_low v w))
                (inl (λ r. ground (arith, at_low v w, h.at_root))))
    ]

pub grown_low-pte_at :
    (place : ℕ → ℕ) (root : ℕ) (e : ℕ → ℕ → ℕ) (i j p va : ℕ)
    → IsTree place root e
    → i < 512
    → is_valid (e root i) ≡ true
    → is_valid (e (pte2pa (e root i)) j) ≡ false
    → place p ≡ 0
    → p % 4096 ≡ 0
    → p < phystop
    → pte_at root (grown e (pte2pa (e root i)) j p) va ≡ pte_at root e va
grown_low-pte_at place root e i j p va h hi has gone out al below =
    let t = pte2pa (e root i) in
    let at_t : place t ≡ mid_place i = h.mids i hi has in
    let np : t ≢ p = λ q. ground (arith, at_t) in
    let nr : root ≢ t = λ q. ground (arith, at_t, h.at_root) in
    let rp : root ≢ p = λ q. ground (arith, h.at_root) in
    let mid = e root (px 2 va) in
    let same_root : grown e t j p root (px 2 va) ≡ mid =
      grown_other e t j p root (px 2 va) rp (inl nr) in
    elim (Bool-cases (is_valid mid)) [
      | inr v ↦ rw (same_root, v) refl
      | inl v ↦
          let at_mid = h.mids (px 2 va) (px_lt 2 va) v in
          let mp : pte2pa mid ≢ p = λ q. ground (arith, at_mid) in
          elim (Bool-cases (px 2 va == i && px 1 va == j)) [
            | inl q ↦
                let here : px 2 va ≡ i = ground arith in
                let there : px 1 va ≡ j = ground arith in
                rw
                  (
                    here,
                    there,
                    grown_other e t j p root i rp (inl nr),
                    has,
                    grown_link e t j p np,
                    is_valid-pa2pte p,
                    pte2pa-pa2pte p al below,
                    grown_new e t j p (px 0 va) np,
                    gone,
                  )
                  refl
            | inr q ↦
                let low = e (pte2pa mid) (px 1 va) in
                let apart : (pte2pa mid ≢ t) ⊎ (px 1 va ≢ j) = elim (Bool-cases (px 1 va == j)) [
                  | inl r ↦ inl (λ u. ground (arith, at_mid, at_t))
                  | inr r ↦ inr (==→ne (px 1 va) j r)
                ] in
                pte_at-agree root e (grown e t j p) va same_root
                  (λ _. grown_other e t j p (pte2pa mid) (px 1 va) mp apart)
                  (λ _ w.
                    let at_low =
                      h.lows (pte2pa mid) (px 2 va) (px 1 va) (px_lt 2 va) (px_lt 1 va) at_mid w in
                    grown_other e t j p (pte2pa low) (px 0 va) (λ r. ground (arith, at_low))
                      (inl (λ r. ground (arith, at_low, at_t))))
          ]
    ]

-- The entries of a page outside the tree do not matter.
pub IsTree-outside :
    (place : ℕ → ℕ) (root : ℕ) (e : ℕ → ℕ → ℕ) (p : ℕ) (r : ℕ → ℕ)
    → IsTree place root e
    → place p ≡ 0
    → IsTree place root (update e p r)
IsTree-outside place root e p r h out = record {
  at_root = h.at_root;
  mids = λ i hi v. ground (arith, h.at_root, h.mids i hi);
  lows = λ t i j hi hj pl v. ground (arith, h.at_root, h.lows t i j hi hj);
}

pub pte_at-outside :
    (place : ℕ → ℕ) (root : ℕ) (e : ℕ → ℕ → ℕ) (p va : ℕ) (r : ℕ → ℕ)
    → IsTree place root e
    → place p ≡ 0
    → pte_at root (update e p r) va ≡ pte_at root e va
pte_at-outside place root e p va r h out =
    let mid = e root (px 2 va) in
    let low = e (pte2pa mid) (px 1 va) in
    let at_mid = h.mids (px 2 va) (px_lt 2 va) in
    pte_at-agree root e (update e p r) va (ground (arith, h.at_root))
      (λ v. ground (arith, at_mid v))
      (λ v w.
        ground
          (arith, h.lows (pte2pa mid) (px 2 va) (px 1 va) (px_lt 2 va) (px_lt 1 va) (at_mid v) w))
